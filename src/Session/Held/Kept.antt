-- ===== src/Session/Held/Kept.antt =====
-- Operators of src/bddop.c and collections leave what a client holds.
use mo_to_buddy.Prelude.{
  ℕ, ◌≤◌, ◌<◌, ◌≡◌, refl, sym, ◌∙◌, ap, subst, ◌⊎◌, inl, inr, Bool, List, [], ◌∷◌, arith, dec_lt,
}
use mathlib.Core.Logic.{⊎_elim}
use mo_to_buddy.Tree.{Assignment}
use mo_to_buddy.Kernel.{Kernel, maxref}
use mo_to_buddy.Kernel.WellFormed.{Live}
use mo_to_buddy.Kernel.Protected.{Protected, constant, counted, SameNode}
use mo_to_buddy.Kernel.Gbc.Collect.{Collected}
use mo_to_buddy.Kernel.Makenode.Made.{Extends, reorder_ready_same}
use mo_to_buddy.Kernel.Refs.Counted.{recount, recount-SameButCount, recount-WellFormed}
use mo_to_buddy.Represents.{Denotes}
use mo_to_buddy.Represents.Frame.{Rep-Extends}
use mo_to_buddy.Op.Stack.{restack, Keeps-Retains, Retains, Live-Retains, Rep-Retains}
use mo_to_buddy.Op.Ready.{Ready, Limits-same, CachesSound, CachesSound-Extends, CachesSound-reset}
use mo_to_buddy.Op.Runs.{Good}
use mo_to_buddy.Op.Call.{initref}
use mo_to_buddy.Session.{Ref, owners, AllTrue, Session}

-- Another number of references leaves the shape of the table.
pub recount-Extends : (s : Kernel) (root c : ℕ) → Extends s (recount s root c)
recount-Extends s root c n (h, lt, ne) =
    let f = recount-SameButCount s root c n in
    ((h, lt, λ e. ne (sym f.low ∙ e)), record { level = f.level; low = f.low; high = f.high })

pub recount-Ready :
    {top : ℕ} {s : Kernel} (root c : ℕ)
    → Ready top s
    → Live s.nodesize s.nodes root
    → Ready top (recount s root c)
recount-Ready {top} {s} root c r live = record {
  well = recount-WellFormed r.well root c live.2;
  limits = Limits-same s (recount s root c) refl refl refl r.limits;
  no_jump = reorder_ready_same s (recount s root c) refl ∙ r.no_jump;
  consts = λ n h. let old = r.consts n h in omega (arith, (recount-SameButCount s root c n).level);
  caches =
      CachesSound-Extends s (recount s root c) s.caches (recount-Extends s root c) (λ z. z)
        r.caches;
}

pub Denotes-Extends :
    (s s' : Kernel) (n : ℕ) (f : Assignment → Bool) → Extends s s' → Denotes s n f → Denotes s' n f
Denotes-Extends s s' n f x (t, rep, same) = (t, Rep-Extends s s' t n x rep, same)

pub AllTrue-Extends :
    (s s' : Kernel) (held : List Ref) → Extends s s' → AllTrue s held → AllTrue s' held
AllTrue-Extends s s' [] x a = tt
AllTrue-Extends s s' (r ∷ held) x (d, a) =
    (Denotes-Extends s s' r.bdd r.truth x d, AllTrue-Extends s s' held x a)

-- A held node is protected, whatever is on the stack.
pub held-Protected :
    {top : ℕ} {s : Kernel} {held : List Ref} (n : ℕ) (stack : List ℕ)
    → Session top s held
    → (n < 2) ⊎ (0 < owners n held)
    → Protected (restack s stack) n
held-Protected n stack h (inl small) = constant small
held-Protected {top} {s} {held} n stack h (inr own) = elim (dec_lt n 2) [
  | yes small ↦ constant small
  | no big ↦
      let (live, enough) = h.counted n (omega arith) own in
      counted live.1 (
        ⊎_elim (λ (e : owners n held ≤ (s.nodes n).refcou). omega arith)
          (λ (e : maxref ≤ (s.nodes n).refcou). omega arith) enough)
]

AllTrue-Retains :
    (s s' : Kernel) (held : List Ref)
    → Retains s s'
    → ((n : ℕ) → 0 < owners n held → Protected s n)
    → AllTrue s held
    → AllTrue s' held
AllTrue-Retains s s' [] k p a = tt
AllTrue-Retains s s' (r ∷ held) k p ((t, rep, same), a) = (
  (t, Rep-Retains t r.bdd k (p r.bdd (ground arith)) rep, same),
  AllTrue-Retains s s' held k (λ n h. p n (ground arith)) a,
)

-- A call that leaves protected nodes, with what it found on the stack, leaves what is held.
pub Session-Retains :
    {top : ℕ} {s s' : Kernel} {held : List Ref} (stack : List ℕ)
    → Session top s held
    → Retains (restack s stack) s'
    → Ready top s'
    → s'.running ≡ s.running
    → s'.refslots ≡ s.refslots
    → (s'.errorcond ≡ 0 → s.errorcond ≡ 0)
    → Session top s' held
Session-Retains {top} {s} {s'} {held} stack h k ready run slots error = record {
  ready = ready;
  running = run ∙ h.running;
  room = let old = h.room in omega (arith, slots);
  counted = λ n big own.
      let p = held-Protected n stack h (inr own) in
      let (live, enough) = h.counted n big own in
      let same : SameNode (s.nodes n) (s'.nodes n) = k.node n p big in
      (
        Live-Retains k n p live,
        ⊎_elim (λ (e : owners n held ≤ (s.nodes n).refcou). inl (omega (arith, same.refcou)))
            (λ (e : maxref ≤ (s.nodes n).refcou). inr (omega (arith, same.refcou))) enough,
      );
  truths = λ z.
      AllTrue-Retains (restack s stack) s' held k (λ n own. held-Protected n stack h (inr own))
        (AllTrue-Extends s (restack s stack) held
          (λ n l. (l, record { level = refl; low = refl; high = refl })) (h.truths (error z)));
}

-- An operator call leaves what is held.
pub Session-Good :
    {top : ℕ} {s s' : Kernel} {B : ℕ → Type 0} {f : Assignment → Bool} {r : ℕ} {held : List Ref}
    → Session top s held
    → Good top (initref s) s' B f r
    → Session top s' held
Session-Good h g = Session-Retains [] h g.retains g.ready g.running g.slots g.error

-- So does a collection.
pub Session-Collected :
    {top : ℕ} {s s' : Kernel} {held : List Ref}
    → Session top s held
    → Collected top s s'
    → Session top s' held
Session-Collected {top} {s} {s'} {held} h g =
    Session-Retains s.refstack h (Keeps-Retains g.keeps) ready
      (ap (λ (k : Kernel). k.running) g.rest) (ap (λ (k : Kernel). k.refslots) g.rest)
      (λ z. sym (ap (λ (k : Kernel). k.errorcond) g.rest) ∙ z)
  where
    ready : Ready top s'
    ready = record {
      well = g.well;
      limits =
          Limits-same s s' (ap (λ (k : Kernel). k.nodesize) g.rest)
            (ap (λ (k : Kernel). k.maxnodesize) g.rest)
            (ap (λ (k : Kernel). k.maxnodeincrease) g.rest) h.ready.limits;
      no_jump = reorder_ready_same s s' (ap (λ (k : Kernel). k.reorder) g.rest) ∙ h.ready.no_jump;
      consts = λ n small.
          let old = h.ready.consts n small in omega (arith, (g.keeps.const n small).level);
      caches =
          subst (CachesSound s') (sym (ap (λ (k : Kernel). k.caches) g.rest))
            (CachesSound-reset s s' s.caches h.ready.caches);
    }
