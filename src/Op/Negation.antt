-- ===== src/Op/Negation.antt =====
-- The recursion of `not_rec` in src/bddop.c returns the negation.
use mo_to_buddy.Prelude.{
  ℕ, zero, suc, ◌+◌, ◌*◌, ◌≤◌, ◌<◌, ◌≡◌, ◌≢◌, refl, sym, ap, subst, ◌⊎◌, inl, inr, Bool, true,
  false, not, ◌&&◌, none, some, length, ◌==◌, if◌then◌else◌, arith, Option-cases, Bool-cases,
}
use mo_to_buddy.Tree.{Tree, leaf, node, height, Assignment, eval}
use mo_to_buddy.Hash.{hash1}
use mo_to_buddy.Cache.{Entry, Cache, lookup, put, slot}
use mo_to_buddy.Kernel.{Kernel, done, Cmd, level, low, high}
use mo_to_buddy.Kernel.Protected.{Protected}
use mo_to_buddy.Kernel.Makenode.{makenode}
use mo_to_buddy.Kernel.Makenode.Resize.{FindsPrimes}
use mo_to_buddy.Represents.{Rep, Denotes}
use mo_to_buddy.Represents.Unfold.{Rep-IsOrdered}
use mo_to_buddy.Represents.Canonicity.{Rep-functional}
use mo_to_buddy.Op.{
  Op, and, xor, or, nand, nor, imp, biimp, diff, less, invimp, code, not_code, cached_in, cached,
  join, remember, fill_not, not_rec, with_apply, entry_at,
}
use mo_to_buddy.Op.Stack.{push, Retains, Retains-trans, same_nodes-Retains, push-Retains}
use mo_to_buddy.Op.Fact.{Before, Fact, Fact-weaken, const-Fact, outcome}
use mo_to_buddy.Op.Ready.{Sound-put, Ready, push-Ready}
use mo_to_buddy.Op.Runs.{Good, Runs, here-Good, written-Good, join-Runs}
use mo_to_buddy.Op.Cofactor.{Arg, Arg-Retains, Here, at_level}

-- What a hit of `not_rec` says.
pub hit_entry :
    (c : Cache) (hash res : ℕ) (fits : Entry → Bool)
    → cached_in c hash fits ≡ some res
    → (i : ℕ) × ((c.table i).generation ≡ c.current_generation)
      × (fits (c.table i) ≡ true)
      × ((c.table i).res ≡ res)
unfolding cached_in lookup
hit_entry c hash res fits h = (slot c hash, ground arith, ground arith, ground arith)

pub code-other : (op : Op) → code op ≢ not_code
code-other and e = omega (arith, e)
code-other xor e = omega (arith, e)
code-other or e = omega (arith, e)
code-other nand e = omega (arith, e)
code-other nor e = omega (arith, e)
code-other imp e = omega (arith, e)
code-other biimp e = omega (arith, e)
code-other diff e = omega (arith, e)
code-other less e = omega (arith, e)
code-other invimp e = omega (arith, e)

module _ (make : ℕ → ℕ → ℕ → Cmd ℕ) (fuel r : ℕ) (s : Kernel) (big : 1 < r) where
  not_hit :
      (res : ℕ)
      → cached (hash1 r) (λ e. (e.a == r) && (e.c == not_code)) s ≡ some res
      → not_rec make (suc fuel) r s ≡ done res s
  unfolding not_rec
  not_hit res e =
      let n0 : (r == 0) ≡ false = ground arith in
      let n1 : (r == 1) ≡ false = ground arith in rw (n0, n1, e) refl

  not_miss :
      (res : ℕ) (s4 : Kernel)
      → cached (hash1 r) (λ e. (e.a == r) && (e.c == not_code)) s ≡ none
      → join make
          (λ t. level t r)
          (λ t. not_rec make fuel (low t r) t)
          (λ t. not_rec make fuel (high t r) t)
          s
        ≡ done res s4
      → not_rec make (suc fuel) r s
        ≡ done res
            (with_apply (put s4.caches.apply (hash1 r) (fill_not r res (entry_at s4 (hash1 r)))) s4)
  unfolding not_rec remember
  not_miss res s4 e j =
      let n0 : (r == 0) ≡ false = ground arith in
      let n1 : (r == 1) ≡ false = ground arith in rw (n0, n1, e, j) refl

-- A valid entry for the operand gives the negation.
hit-Fact :
    {top : ℕ} {s : Kernel} (r res : ℕ) (t : Tree)
    → Ready top s
    → Rep s r t
    → cached (hash1 r) (λ e. (e.a == r) && (e.c == not_code)) s ≡ some res
    → Fact s (Before t) (λ ρ. not (eval t ρ)) res
unfolding cached
hit-Fact {top} {s} r res t ready rep h =
    let (i, g, fits, out) =
      hit_entry s.caches.apply (hash1 r) res (λ e. (e.a == r) && (e.c == not_code)) h in
    let e = s.caches.apply.table i in
    let ea : e.a ≡ r = ground arith in
    let ec : e.c ≡ not_code = ground arith in
    let n = (ready.caches.apply.entries i g).negation ec in
    let same : n.tree ≡ t =
      Rep-functional s n.tree t r (subst (λ x. Rep s x n.tree) ea n.rep) rep in
    subst (λ x. Fact s (Before t) (λ ρ. not (eval t ρ)) x) out
      (subst (λ v. Fact s (Before v) (λ ρ. not (eval v ρ)) e.res) same n.fact)

-- The result is written behind the call that computed it.
remembered :
    {top : ℕ} {s s' : Kernel} (j r res : ℕ) (t : Tree)
    → Arg s j r t
    → Good top s s' (Before t) (λ ρ. not (eval t ρ)) res
    → Good top s
        (with_apply (put s'.caches.apply (hash1 r) (fill_not r res (entry_at s' (hash1 r)))) s')
        (Before t)
        (λ ρ. not (eval t ρ))
        res
remembered {top} {s} {s'} j r res t a g =
    written-Good
      (record s'.caches {
        apply = put s'.caches.apply (hash1 r) (fill_not r res (entry_at s' (hash1 r)));
      })
      g
      (record {
        apply =
            Sound-put (hash1 r) (fill_not r res (entry_at s' (hash1 r)))
              (λ n. record {
                negation =
                    λ e. record { tree = t; rep = (Arg-Retains g.retains a).rep; fact = g.fact };
                combination = λ op e. absurd (code-other op (sym e));
              })
              g.ready.caches.apply;
        ite = g.ready.caches.ite;
        quant = g.ready.caches.quant;
      })

not-const :
    (make : ℕ → ℕ → ℕ → Cmd ℕ) (fuel r : ℕ) (b : Bool) (s : Kernel)
    → r ≡ (if b then 1 else 0)
    → not_rec make (suc fuel) r s ≡ done (if not b then 1 else 0) s
unfolding not_rec
not-const make fuel r true s e = rw e refl
not-const make fuel r false s e = rw e refl

module _ (prime_lte : ℕ → ℕ) (primes : FindsPrimes prime_lte) where
  -- The recursive calls are on the two halves of the operand.
  not-join-Runs :
      {top : ℕ} (call : ℕ → Cmd ℕ) (s : Kernel) (j l r : ℕ) (t : Tree)
      → ((s' : Kernel) (x : ℕ) (v : Tree)
          → Retains s s'
          → Ready top s'
          → Arg s' (suc l) x v
          → height v < height t
          → length s'.refstack ≤ length s.refstack + 1
          → s'.refslots ≡ s.refslots
          → Runs top s' (call x) (Before v) (λ ρ. not (eval v ρ)))
      → Ready top s
      → Here s j l r t
      → l < top
      → length s.refstack + 2 ≤ s.refslots
      → Runs top s
          (join
            (makenode prime_lte)
            (λ x. level x r)
            (λ x. call (low x r) x)
            (λ x. call (high x r) x))
          (Before t)
          (λ ρ. not (eval t ρ))
  not-join-Runs {top} call s j l r t calls ready here below room =
      let h = here.halves in
      let still : Retains s s = same_nodes-Retains s s.refstack (λ n m. m) in
      let first = h.low_arg s still in
      let second = λ (a : ℕ) (s1 : Kernel) (k : Retains s s1).
        h.high_arg (push a s1) (Retains-trans k (push-Retains s1 a)) in
      join-Runs prime_lte primes (λ x. level x r) (λ x. call (low x r) x) (λ x. call (high x r) x) s
        l (Before h.low_tree) (Before h.high_tree) (Before t) (λ ρ. not (eval h.low_tree ρ))
        (λ ρ. not (eval h.high_tree ρ)) (λ ρ. not (eval t ρ))
        (calls s (low s r) h.low_tree still ready first here.low_height (omega arith) refl)
        (λ a s1 g.
          calls (push a s1) (high s1 r) h.high_tree (Retains-trans g.retains (push-Retains s1 a))
            (push-Ready a g.ready g.fact.ok) (second a s1 g.retains) here.high_height
            (omega (arith, ap length g.stack)) g.slots)
        here.level_at room below first.ordered ((h.high_arg s still).ordered) here.before
        (λ ρ. elim (Bool-cases (ρ l)) [
          | inl y ↦ let e = h.shannon ρ in rw y (ap not (sym (rw y at e)))
          | inr y ↦ let e = h.shannon ρ in rw y (ap not (sym (rw y at e)))
        ])

  -- By induction on the fuel, which is above the height of the operand.
  pub not_rec-Runs :
      {top : ℕ} (fuel j : ℕ) (s : Kernel) (r : ℕ) (t : Tree)
      → Ready top s
      → Arg s j r t
      → height t < fuel
      → length s.refstack + 2 * height t ≤ s.refslots
      → Runs top s (not_rec (makenode prime_lte) fuel r) (Before t) (λ ρ. not (eval t ρ))
  not_rec-Runs zero j s r t ready a few room = absurd (omega arith)
  not_rec-Runs {top} (suc fuel) j s r (leaf b) ready a few room = (
    (if not b then 1 else 0),
    s,
    not-const (makenode prime_lte) fuel r b s a.rep,
    here-Good ready (Fact-weaken s (λ i h. tt) (λ ρ. refl) (const-Fact s (λ i. Unit) (not b))),
  )
  not_rec-Runs {top} (suc fuel) j s r (node l t u) ready a few room =
      elim (Option-cases (cached (hash1 r) (λ e. (e.a == r) && (e.c == not_code)) s)) [
        | inr (res, hit) ↦ (
          res,
          s,
          not_hit (makenode prime_lte) fuel r s a.rep.0.0 res hit,
          here-Good ready (hit-Fact r res (node l t u) ready a.rep hit),
        )
        | inl miss ↦
            let below : l < top = omega (arith, a.rep.1, (ready.well.live r a.rep.0).level) in
            let (res, s', e, g) =
              not-join-Runs (not_rec (makenode prime_lte) fuel) s j l r (node l t u)
                (λ s' x v keep ready' arg small shallow slots.
                  not_rec-Runs fuel (suc l) s' x v ready' arg (omega arith) (omega arith))
                ready (at_level j l r (node l t u) ready a a.rep.1 below) below (omega arith) in
            (
              res,
              with_apply (put s'.caches.apply (hash1 r) (fill_not r res (entry_at s' (hash1 r))))
                  s',
              not_miss (makenode prime_lte) fuel r s a.rep.0.0 res s' miss e,
              remembered j r res (node l t u) a g,
            )
      ]

  -- In a state in which operators may be called, let a protected BDD have a truth function and a tree
  -- of a height below the fuel, with room for two references a level on the stack. Then `not_rec`
  -- returns, operators may be called again, protected nodes and the stack are as they were, and
  -- unless an error occurred the result has the negated truth function.
  pub not_rec-Denotes :
      {top : ℕ} (fuel : ℕ) (s : Kernel) (r : ℕ) (f : Assignment → Bool)
      → Ready top s
      → (d : Denotes s r f) → Protected s r
      → height d.0 < fuel
      → length s.refstack + 2 * height d.0 ≤ s.refslots
      → (res : ℕ) × (s' : Kernel) × (not_rec (makenode prime_lte) fuel r s ≡ done res s')
        × Ready top s'
        × Retains s s'
        × (s'.refstack ≡ s.refstack)
        × ((s'.errorcond ≢ 0) ⊎ Denotes s' res (λ ρ. not (f ρ)))
  not_rec-Denotes {top} fuel s r f ready (t, rep, same) p few room =
      let ordered = Rep-IsOrdered t r 0 ready.well rep (inr (omega arith)) in
      let (res, s', e, g) =
        not_rec-Runs fuel 0 s r t ready (record { rep = rep; held = p; ordered = ordered }) few
          room in
      (res, s', e, g.ready, g.retains, g.stack, outcome s' (λ ρ. ap not (same ρ)) g.fact)
