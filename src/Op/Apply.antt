-- ===== src/Op/Apply.antt =====
-- The recursion of `apply_rec` in src/bddop.c combines the operands.
pub mod Recall
use mo_to_buddy.Prelude.{
  ℕ, zero, suc, ◌+◌, ◌-◌, ◌*◌, ◌≤◌, ◌<◌, ◌≡◌, ◌≢◌, refl, sym, ap, ◌⊎◌, inl, inr, Bool, true, false,
  ◌&&◌, length, ltb, ◌==◌, arith, Option-cases, Bool-cases, dec_lt, ℕ_discrete,
}
use mathlib.Core.Path.{ap₂}
use mo_to_buddy.Tree.{Tree, Assignment}
use mo_to_buddy.Hash.{hash3}
use mo_to_buddy.Kernel.{Kernel, done, Cmd, level, low, high}
use mo_to_buddy.Kernel.Protected.{Protected}
use mo_to_buddy.Kernel.Makenode.{makenode}
use mo_to_buddy.Kernel.Makenode.Resize.{FindsPrimes}
use mo_to_buddy.Represents.{Denotes}
use mo_to_buddy.Represents.Unfold.{Rep-IsOrdered}
use mo_to_buddy.Op.{Op, less, code, cached, join, shortcut, is_const, oprres, split, apply_rec}
use mo_to_buddy.Op.Stack.{push, Retains, Retains-trans, same_nodes-Retains, push-Retains}
use mo_to_buddy.Op.Fact.{outcome}
use mo_to_buddy.Op.Ready.{op_bool, Before2, Ready, push-Ready}
use mo_to_buddy.Op.Runs.{Runs, here-Good, join-Runs}
use mo_to_buddy.Op.Cofactor.{Arg, Halves, at_level, past_level, live_level, some_depth}
use mo_to_buddy.Op.Shortcut.{shortcut-Fact, const2-Fact}
use mo_to_buddy.Op.Apply.Recall.{
  fits, combined, hit-Fact, noted, remembered, run_shortcut, run_const, run_hit, run_miss,
}

module _ (prime_lte : ℕ → ℕ) (primes : FindsPrimes prime_lte) where
  -- The recursive calls are on the halves of both operands.
  pair-Runs :
      {top : ℕ} (op : Op) (call : ℕ → ℕ → Cmd ℕ) (at lo1 hi1 lo2 hi2 : Kernel → ℕ) (s : Kernel)
      (l : ℕ) (t u : Tree)
      → ((s' : Kernel) (x y : ℕ) (v w : Tree)
          → Ready top s'
          → Arg s' (suc l) x v
          → Arg s' (suc l) y w
          → length s'.refstack ≤ length s.refstack + 1
          → s'.refslots ≡ s.refslots
          → Runs top s' (call x y) (Before2 v w) (combined op v w))
      → Ready top s
      → Halves s l t lo1 hi1
      → Halves s l u lo2 hi2
      → ((x : Kernel) → Retains s x → at x ≡ l)
      → ((i : ℕ) → Before2 t u i → i < l)
      → l < top
      → length s.refstack + 2 ≤ s.refslots
      → Runs top s
          (join (makenode prime_lte) at (λ x. call (lo1 x) (lo2 x) x) (λ x. call (hi1 x) (hi2 x) x))
          (Before2 t u)
          (combined op t u)
  pair-Runs {top} op call at lo1 hi1 lo2 hi2 s l t u calls ready h k level_at before below room =
      let still : Retains s s = same_nodes-Retains s s.refstack (λ n m. m) in
      let first = h.low_arg s still in
      let second = k.low_arg s still in
      join-Runs prime_lte primes at (λ x. call (lo1 x) (lo2 x) x) (λ x. call (hi1 x) (hi2 x) x) s l
        (Before2 h.low_tree k.low_tree) (Before2 h.high_tree k.high_tree) (Before2 t u)
        (combined op h.low_tree k.low_tree) (combined op h.high_tree k.high_tree) (combined op t u)
        (calls s (lo1 s) (lo2 s) h.low_tree k.low_tree ready first second (omega arith) refl)
        (λ a s1 g.
          let later : Retains s (push a s1) = Retains-trans g.retains (push-Retains s1 a) in
          calls (push a s1) (hi1 (push a s1)) (hi2 (push a s1)) h.high_tree k.high_tree
            (push-Ready a g.ready g.fact.ok) (h.high_arg (push a s1) later)
            (k.high_arg (push a s1) later) (omega (arith, ap length g.stack)) g.slots)
        level_at room below (first.ordered, second.ordered)
        ((h.high_arg s still).ordered, (k.high_arg s still).ordered) before
        (λ ρ.
          let e = h.shannon ρ in
          let e' = k.shannon ρ in
          elim (Bool-cases (ρ l)) [
            | inl y ↦ rw y (sym (ap₂ (op_bool op) (rw y at e) (rw y at e')))
            | inr y ↦ rw y (sym (ap₂ (op_bool op) (rw y at e) (rw y at e')))
          ])

  -- The three branches on the levels of the operands.
  split-Runs :
      {top : ℕ} (op : Op) (call : ℕ → ℕ → Cmd ℕ) (s : Kernel) (j l r : ℕ) (t u : Tree)
      → ((s' : Kernel) (m x y : ℕ) (v w : Tree)
          → j ≤ m
          → m < top
          → Ready top s'
          → Arg s' (suc m) x v
          → Arg s' (suc m) y w
          → length s'.refstack ≤ length s.refstack + 1
          → s'.refslots ≡ s.refslots
          → Runs top s' (call x y) (Before2 v w) (combined op v w))
      → Ready top s
      → Arg s j l t
      → Arg s j r u
      → (level s l < top) ⊎ (level s r < top)
      → length s.refstack + 2 ≤ s.refslots
      → Runs top s (split (makenode prime_lte) call l r) (Before2 t u) (combined op t u)
  unfolding split
  split-Runs {top} op call s j l r t u calls ready a b low_one room =
      elim (ℕ_discrete (level s l) (level s r)) [
        | yes e ↦
            let below : level s l < top = ground arith in
            let x = at_level j (level s l) l t ready a refl below in
            let y = at_level j (level s l) r u ready b (sym e) below in
            let test : (level s l == level s r) ≡ true = ground arith in
            rw (split, test)
              (pair-Runs op call (λ z. level z l) (λ z. low z l) (λ z. high z l) (λ z. low z r)
                (λ z. high z r) s (level s l) t u
                (λ s' p q v w. calls s' (level s l) p q v w x.start below) ready x.halves y.halves
                x.level_at (λ i h. x.before i h.0) below room)
        | no ne ↦
            let test : (level s l == level s r) ≡ false = ground arith in
            elim (dec_lt (level s l) (level s r)) [
              | yes lt ↦
                  let below : level s l < top = ground arith in
                  let x = at_level j (level s l) l t ready a refl below in
                  let less : ltb (level s l) (level s r) ≡ true = ground arith in
                  rw (split, test, less)
                    (pair-Runs op call (λ z. level z l) (λ z. low z l) (λ z. high z l) (λ z. r)
                      (λ z. r) s (level s l) t u
                      (λ s' p q v w. calls s' (level s l) p q v w x.start below) ready x.halves
                      (past_level j (level s l) r u b lt) x.level_at (λ i h. x.before i h.0) below
                      room)
              | no ge ↦
                  let below : level s r < top = ground arith in
                  let y = at_level j (level s r) r u ready b refl below in
                  let less : ltb (level s l) (level s r) ≡ false = ground arith in
                  rw (split, test, less)
                    (pair-Runs op call (λ z. level z r) (λ z. l) (λ z. l) (λ z. low z r)
                      (λ z. high z r) s (level s r) t u
                      (λ s' p q v w. calls s' (level s r) p q v w y.start below) ready
                      (past_level j (level s r) l t a (omega arith)) y.halves y.level_at
                      (λ i h. y.before i h.1) below room)
            ]
      ]

  -- By induction on the fuel, which is above the number of levels left below `top`.
  pub apply_rec-Runs :
      {top : ℕ} (op : Op) (fuel k j : ℕ) (s : Kernel) (l r : ℕ) (t u : Tree)
      → Ready top s
      → Arg s j l t
      → Arg s j r u
      → top ≤ j + k
      → k < fuel
      → length s.refstack + 2 * k ≤ s.refslots
      → Runs top s (apply_rec (makenode prime_lte) op fuel l r) (Before2 t u) (combined op t u)
  apply_rec-Runs op zero k j s l r t u ready a b depth few room = absurd (omega arith)
  apply_rec-Runs {top} op (suc fuel) k j s l r t u ready a b depth few room =
      elim (Option-cases (shortcut op l r)) [
        | inr (res, e) ↦ (
          res,
          s,
          run_shortcut (makenode prime_lte) op fuel l r s res e,
          here-Good ready (shortcut-Fact s op l r t u a.rep b.rep res e),
        )
        | inl e ↦ elim (Bool-cases (is_const l && is_const r)) [
          | inl c ↦ (
            oprres op l r,
            s,
            run_const (makenode prime_lte) op fuel l r s e (ground arith) (ground arith),
            here-Good ready (const2-Fact s op l r t u a.rep b.rep (ground arith) (ground arith)),
          )
          | inr c ↦ elim (Option-cases (cached (hash3 l r (code op)) (fits op l r) s)) [
            | inr (res, h) ↦ (
              res,
              s,
              run_hit (makenode prime_lte) op fuel l r s res e c h,
              here-Good ready (hit-Fact op l r res t u ready a.rep b.rep h),
            )
            | inl h ↦
                let (deep, one) : (0 < k) × ((level s l < top) ⊎ (level s r < top)) =
                  elim (dec_lt l 2) [
                    | yes x ↦
                        let big : 1 < r = ground arith in
                        (some_depth j k r u ready b big depth, inr (live_level r u ready b.rep big))
                    | no x ↦ (
                      some_depth j k l t ready a (omega arith) depth,
                      inl (live_level l t ready a.rep (omega arith)),
                    )
                  ] in
                let (res, s', run, g) =
                  split-Runs op (apply_rec (makenode prime_lte) op fuel) s j l r t u
                    (λ s' m x y v w from below ready' p q shallow slots.
                      apply_rec-Runs op fuel (k - 1) (suc m) s' x y v w ready' p q (omega arith)
                        (omega arith) (omega arith))
                    ready a b one (omega arith) in
                (
                  res,
                  noted op l r res s',
                  run_miss (makenode prime_lte) op fuel l r s res s' e c h run,
                  remembered op j l r res t u a b g,
                )
          ]
        ]
      ]

  -- In a state in which operators may be called, let two protected BDDs have truth functions, with
  -- fuel above the number of levels and room for two references a level on the stack. Then, for
  -- each of the ten operators, `apply_rec` returns, operators may be called again, protected nodes
  -- and the stack are as they were, and unless an error occurred the result has the truth function
  -- that the connective makes of the two.
  pub apply_rec-Denotes :
      {top : ℕ} (op : Op) (fuel : ℕ) (s : Kernel) (l r : ℕ) (f g : Assignment → Bool)
      → Ready top s
      → Denotes s l f
      → Denotes s r g
      → Protected s l
      → Protected s r
      → top < fuel
      → length s.refstack + 2 * top ≤ s.refslots
      → (res : ℕ) × (s' : Kernel) × (apply_rec (makenode prime_lte) op fuel l r s ≡ done res s')
        × Ready top s'
        × Retains s s'
        × (s'.refstack ≡ s.refstack)
        × ((s'.errorcond ≢ 0) ⊎ Denotes s' res (λ ρ. op_bool op (f ρ) (g ρ)))
  apply_rec-Denotes {top} op fuel s l r f g ready (t, rt, et) (u, ru, eu) pl pr few room =
      let a : Arg s 0 l t = record {
        rep = rt;
        held = pl;
        ordered = Rep-IsOrdered t l 0 ready.well rt (inr (omega arith));
      } in
      let b : Arg s 0 r u = record {
        rep = ru;
        held = pr;
        ordered = Rep-IsOrdered u r 0 ready.well ru (inr (omega arith));
      } in
      let (res, s', e, d) =
        apply_rec-Runs op fuel top 0 s l r t u ready a b (omega arith) few room in
      (
        res,
        s',
        e,
        d.ready,
        d.retains,
        d.stack,
        outcome s' (λ ρ. ap₂ (op_bool op) (et ρ) (eu ρ)) d.fact,
      )
