-- ===== src/Op/Ready.antt =====
-- In what state an operator of src/bddop.c may be called: a well-formed table, and caches whose valid
-- entries hold what they say.
pub mod Entries
use mo_to_buddy.Prelude.{
  ℕ, ◌≤◌, ◌<◌, ◌≡◌, refl, sym, ◌∙◌, subst, inl, inr, false, List, ◌∷◌, Among, arith,
}
use mathlib.Core.Logic.{⊎_elim}
use mo_to_buddy.Kernel.{Kernel, Caches, reorder_ready}
use mo_to_buddy.Kernel.WellFormed.{Ok, WellFormed, WellFormed-over}
use mo_to_buddy.Kernel.Makenode.Resize.{Limits}
use mo_to_buddy.Kernel.Makenode.Made.{Extends, Made, reorder_ready_same}
use mo_to_buddy.Op.Stack.{restack, push, restack-WellFormed}
pub use mo_to_buddy.Op.Ready.Entries.{
  op_bool, NotFact, Before2, ApplyFact, Before3, choose, IteFact, Quantifier, exist, forall, unique,
  tag, merger, in_tree, quantified, QuantFact, QuantEntry, ApplyEntry, IteEntry, Sound, Sound-map,
  Sound-put, CachesSound, CachesSound-Extends, CachesSound-reset,
}

pub record Ready (top : ℕ) (s : Kernel) : Type 0 where
  pub well : WellFormed top s
  pub limits : Limits s
  pub no_jump : reorder_ready s ≡ false
  pub consts : (n : ℕ) → n < 2 → top ≤ (s.nodes n).level
  pub caches : CachesSound s s.caches

pub Limits-same :
    (s s' : Kernel)
    → s'.nodesize ≡ s.nodesize
    → s'.maxnodesize ≡ s.maxnodesize
    → s'.maxnodeincrease ≡ s.maxnodeincrease
    → Limits s
    → Limits s'
Limits-same s s' a b c l = record {
  step = omega (arith, l.step);
  fits = omega (arith, l.fits);
  within = omega (arith, l.within);
  prime = rw a l.prime;
  odd = omega (arith, l.odd);
}

pub restack-Extends : (s : Kernel) (xs : List ℕ) → Extends s (restack s xs)
restack-Extends s xs n l = (l, record { level = refl; low = refl; high = refl })

pub restack-Ready :
    {top : ℕ} {s : Kernel} (xs : List ℕ)
    → Ready top s
    → ((n : ℕ) → Among n xs → Ok s.nodesize s.nodes n)
    → Ready top (restack s xs)
restack-Ready {top} {s} xs r ok = record {
  well = restack-WellFormed xs r.well ok;
  limits = Limits-same s (restack s xs) refl refl refl r.limits;
  no_jump = reorder_ready_same s (restack s xs) refl ∙ r.no_jump;
  consts = r.consts;
  caches = CachesSound-Extends s (restack s xs) s.caches (restack-Extends s xs) (λ z. z) r.caches;
}

pub push-Ready :
    {top : ℕ} {s : Kernel} (a : ℕ) → Ready top s → Ok s.nodesize s.nodes a → Ready top (push a s)
push-Ready {top} {s} a r ok =
    restack-Ready (a ∷ s.refstack) r
      (λ n m. ⊎_elim (λ (e : n ≡ a). subst (Ok s.nodesize s.nodes) (sym e) ok) (r.well.stacked n) m)

pub Made-CachesSound :
    {top : ℕ} {s s' : Kernel} {l a b res : ℕ}
    → Made top s s' l a b res
    → CachesSound s s.caches
    → CachesSound s' s'.caches
Made-CachesSound {top} {s} {s'} m k = elim m.caches [
  | inl (same, x) ↦
      subst (CachesSound s') (sym same) (CachesSound-Extends s s' s.caches x m.error k)
  | inr same ↦ subst (CachesSound s') (sym same) (CachesSound-reset s s' s.caches k)
]

pub Made-Ready :
    {top : ℕ} {s s' : Kernel} {l a b res : ℕ} → Made top s s' l a b res → Ready top s → Ready top s'
Made-Ready {top} {s} {s'} m r = record {
  well = m.well;
  limits = m.limits;
  no_jump = reorder_ready_same s s' m.reorder ∙ r.no_jump;
  consts = λ n h. let old = r.consts n h in omega (arith, (m.keeps.const n h).level);
  caches = Made-CachesSound m r.caches;
}

-- The state with other caches.
abbrev pub recache : Kernel → Caches → Kernel
recache s c = record s { caches = c }

pub recache-WellFormed :
    {top : ℕ} {s : Kernel} (c : Caches) → WellFormed top s → WellFormed top (recache s c)
recache-WellFormed {top} {s} c w =
    WellFormed-over (recache s c) w (omega arith) w.top_max w.top_varnum w.stacked

pub recache-Extends : (s : Kernel) (c : Caches) → Extends s (recache s c)
recache-Extends s c n l = (l, record { level = refl; low = refl; high = refl })

pub recache-Ready :
    {top : ℕ} {s : Kernel} (c : Caches) → Ready top s → CachesSound s c → Ready top (recache s c)
recache-Ready {top} {s} c r k = record {
  well = recache-WellFormed c r.well;
  limits = Limits-same s (recache s c) refl refl refl r.limits;
  no_jump = reorder_ready_same s (recache s c) refl ∙ r.no_jump;
  consts = r.consts;
  caches = CachesSound-Extends s (recache s c) c (recache-Extends s c) (λ z. z) k;
}
