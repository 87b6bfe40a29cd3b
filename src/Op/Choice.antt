-- ===== src/Op/Choice.antt =====
-- The recursion of `ite_rec` in src/bddop.c chooses between the operands.
pub mod Recall
pub mod Split
use mo_to_buddy.Prelude.{
  ℕ, zero, suc, ◌+◌, ◌-◌, ◌*◌, ◌≤◌, ◌<◌, ◌≡◌, ◌≢◌, refl, ◌∙◌, ap, ◌⊎◌, inl, inr, Bool, length,
  if◌then◌else◌, arith, Option-cases, Bool-cases,
}
use mo_to_buddy.Tree.{Tree, height, Assignment}
use mo_to_buddy.Hash.{hash3}
use mo_to_buddy.Kernel.{Kernel, done, Cmd, level, low, high}
use mo_to_buddy.Kernel.Protected.{Protected}
use mo_to_buddy.Kernel.Makenode.{makenode}
use mo_to_buddy.Kernel.Makenode.Resize.{FindsPrimes}
use mo_to_buddy.Represents.{Rep, Denotes}
use mo_to_buddy.Represents.Unfold.{Rep-IsOrdered}
use mo_to_buddy.Op.{cached_in, join, not_rec}
use mo_to_buddy.Op.Ite.{ite_shortcut, ite_split, ite_rec}
use mo_to_buddy.Op.Stack.{push, Retains, Retains-trans, same_nodes-Retains, push-Retains}
use mo_to_buddy.Op.Fact.{outcome}
use mo_to_buddy.Op.Ready.{Before3, choose, Ready, push-Ready}
use mo_to_buddy.Op.Runs.{Runs, here-Good, join-Runs}
use mo_to_buddy.Op.Cofactor.{Arg, Halves, at_level, live_level, some_depth, deep_height}
use mo_to_buddy.Op.Negation.{not_rec-Runs}
use mo_to_buddy.Op.Choice.Split.{
  side, lowest, ite_split-joined, lowest_least, side-Halves, lowest-elim,
}
use mo_to_buddy.Op.Choice.Recall.{
  fits, hit-Fact, noted, remembered, run_shortcut, run_hit, run_miss, reason, Negates,
  shortcut-Runs, recursive,
}

module _ (prime_lte : ℕ → ℕ) (primes : FindsPrimes prime_lte) where
  -- The recursive calls are on the halves of the three operands.
  triple-Runs :
      {top : ℕ} (call : ℕ → ℕ → ℕ → Cmd ℕ) (at lo1 hi1 lo2 hi2 lo3 hi3 : Kernel → ℕ) (s : Kernel)
      (l : ℕ) (t u v : Tree)
      → ((s' : Kernel) (x y z : ℕ) (p q r : Tree)
          → Ready top s'
          → Arg s' (suc l) x p
          → Arg s' (suc l) y q
          → Arg s' (suc l) z r
          → length s'.refstack ≤ length s.refstack + 1
          → s'.refslots ≡ s.refslots
          → Runs top s' (call x y z) (Before3 p q r) (choose p q r))
      → Ready top s
      → Halves s l t lo1 hi1
      → Halves s l u lo2 hi2
      → Halves s l v lo3 hi3
      → ((x : Kernel) → Retains s x → at x ≡ l)
      → ((i : ℕ) → Before3 t u v i → i < l)
      → l < top
      → length s.refstack + 2 ≤ s.refslots
      → Runs top s
          (join
            (makenode prime_lte)
            at
            (λ x. call (lo1 x) (lo2 x) (lo3 x) x)
            (λ x. call (hi1 x) (hi2 x) (hi3 x) x))
          (Before3 t u v)
          (choose t u v)
  triple-Runs {top} call at lo1 hi1 lo2 hi2 lo3 hi3 s l t u v calls ready a b c level_at before
        below room =
      let still : Retains s s = same_nodes-Retains s s.refstack (λ n m. m) in
      join-Runs prime_lte primes at (λ x. call (lo1 x) (lo2 x) (lo3 x) x)
        (λ x. call (hi1 x) (hi2 x) (hi3 x) x) s l (Before3 a.low_tree b.low_tree c.low_tree)
        (Before3 a.high_tree b.high_tree c.high_tree) (Before3 t u v)
        (choose a.low_tree b.low_tree c.low_tree) (choose a.high_tree b.high_tree c.high_tree)
        (choose t u v)
        (calls s (lo1 s) (lo2 s) (lo3 s) a.low_tree b.low_tree c.low_tree ready (a.low_arg s still)
          (b.low_arg s still) (c.low_arg s still) (omega arith) refl)
        (λ x s1 g.
          let s' = push x s1 in
          let later : Retains s s' = Retains-trans g.retains (push-Retains s1 x) in
          calls s' (hi1 s') (hi2 s') (hi3 s') a.high_tree b.high_tree c.high_tree
            (push-Ready x g.ready g.fact.ok) (a.high_arg s' later) (b.high_arg s' later)
            (c.high_arg s' later) (omega (arith, ap length g.stack)) g.slots)
        level_at room below
        ((a.low_arg s still).ordered, (b.low_arg s still).ordered, (c.low_arg s still).ordered)
        ((a.high_arg s still).ordered, (b.high_arg s still).ordered, (c.high_arg s still).ordered)
        before
        (λ ρ.
          let ea = a.shannon ρ in
          let eb = b.shannon ρ in
          let ec = c.shannon ρ in
          elim (Bool-cases (ρ l)) [ inl y ↦ ground arith | inr y ↦ ground arith ])

  -- The lowest level of the operands is where one of them stands.
  lowest-At :
      {top : ℕ} (j : ℕ) (s : Kernel) (f g h : ℕ) (t u v : Tree)
      → Ready top s
      → Arg s j f t
      → Arg s j g u
      → Arg s j h v
      → level s (lowest s f g h) < top
      → (j ≤ level s (lowest s f g h))
        × ((x : Kernel) → Retains s x → level x (lowest s f g h) ≡ level s (lowest s f g h))
        × ((i : ℕ) → Before3 t u v i → i < level s (lowest s f g h))
  lowest-At {top} j s f g h t u v ready a b c =
      lowest-elim
        (λ m.
          level s m < top
          → (j ≤ level s m)
            × ((x : Kernel) → Retains s x → level x m ≡ level s m)
            × ((i : ℕ) → Before3 t u v i → i < level s m))
        s f g h
        (λ lt.
          let o = at_level j (level s f) f t ready a refl lt in
          (o.start, o.level_at, λ i x. o.before i x.0))
        (λ lt.
          let o = at_level j (level s g) g u ready b refl lt in
          (o.start, o.level_at, λ i x. o.before i x.1))
        (λ lt.
          let o = at_level j (level s h) h v ready c refl lt in
          (o.start, o.level_at, λ i x. o.before i x.2))

  -- The seven branches on the levels of the operands.
  split-Runs :
      {top : ℕ} (negate : ℕ → Cmd ℕ) (call : ℕ → ℕ → ℕ → Cmd ℕ) (s : Kernel) (j f g h : ℕ)
      (t u v : Tree)
      → ((s' : Kernel) (m x y z : ℕ) (p q r : Tree)
          → j ≤ m
          → m < top
          → Ready top s'
          → Arg s' (suc m) x p
          → Arg s' (suc m) y q
          → Arg s' (suc m) z r
          → length s'.refstack ≤ length s.refstack + 1
          → s'.refslots ≡ s.refslots
          → Runs top s' (call x y z) (Before3 p q r) (choose p q r))
      → Ready top s
      → Arg s j f t
      → Arg s j g u
      → Arg s j h v
      → level s f < top
      → length s.refstack + 2 ≤ s.refslots
      → Runs top s (ite_split (makenode prime_lte) negate call f g h) (Before3 t u v) (choose t u v)
  split-Runs {top} negate call s j f g h t u v calls ready a b c in_use room =
      let m = lowest s f g h in
      let (le_f, le_g, le_h) = lowest_least s f g h in
      let below : level s m < top = omega arith in
      let (start, level_at, before) = lowest-At j s f g h t u v ready a b c below in
      rw (ite_split-joined (makenode prime_lte) negate call f g h s) (
        triple-Runs call (λ x. level x m) (side s (level s m) low f) (side s (level s m) high f)
          (side s (level s m) low g) (side s (level s m) high g) (side s (level s m) low h)
          (side s (level s m) high h) s (level s m) t u v
          (λ s' x y z p q r. calls s' (level s m) x y z p q r start below) ready
          (side-Halves j (level s m) f t ready a below le_f)
          (side-Halves j (level s m) g u ready b below le_g)
          (side-Halves j (level s m) h v ready c below le_h) level_at before below room)

  -- By induction on the fuel, which is above the number of levels left below `top`.
  pub ite_rec-Runs :
      {top : ℕ} (negate : ℕ → Cmd ℕ) (negates : Negates top negate) (fuel k j : ℕ) (s : Kernel)
      (f g h : ℕ) (t u v : Tree)
      → Ready top s
      → Arg s j f t
      → Arg s j g u
      → Arg s j h v
      → top ≤ j + k
      → k < fuel
      → length s.refstack + 2 * k ≤ s.refslots
      → Runs top s (ite_rec (makenode prime_lte) negate fuel f g h) (Before3 t u v) (choose t u v)
  ite_rec-Runs negate negates zero k j s f g h t u v ready a b c depth few room =
      absurd (omega arith)
  ite_rec-Runs {top} negate negates (suc fuel) k j s f g h t u v ready a b c depth few room =
      elim (Option-cases (ite_shortcut negate f g h)) [
        | inr (call, e) ↦
            let (res, s', run, d) =
              shortcut-Runs negate negates j k f g h s t u v call ready a b c depth room
                (reason negate f g h call e) in
            (res, s', run_shortcut (makenode prime_lte) negate fuel f g h s call e ∙ run, d)
        | inl e ↦ elim (Option-cases (cached_in s.caches.ite (hash3 f g h) (fits f g h))) [
          | inr (res, hit) ↦ (
            res,
            s,
            run_hit (makenode prime_lte) negate fuel f g h s res e hit,
            here-Good ready (hit-Fact f g h res t u v ready a.rep b.rep c.rep hit),
          )
          | inl miss ↦
              let big : 1 < f = recursive negate f g h e in
              let deep : 0 < k = some_depth j k f t ready a big depth in
              let (res, s', run, d) =
                split-Runs negate (ite_rec (makenode prime_lte) negate fuel) s j f g h t u v
                  (λ s' m x y z p q r from below ready' x' y' z' shallow slots.
                    ite_rec-Runs negate negates fuel (k - 1) (suc m) s' x y z p q r ready' x' y' z'
                      (omega arith) (omega arith) (omega arith))
                  ready a b c (live_level f t ready a.rep big) (omega arith) in
              (
                res,
                noted f g h res s',
                run_miss (makenode prime_lte) negate fuel f g h s res s' e miss run,
                remembered j f g h res t u v a b c d,
              )
        ]
      ]

  pub not_rec-Negates :
      {top : ℕ} (not_fuel : ℕ)
      → top < not_fuel
      → Negates top (not_rec (makenode prime_lte) not_fuel)
  not_rec-Negates {top} not_fuel few j k s r t ready a depth room =
      let small : height t ≤ k = deep_height t j k r ready.well a.rep a.ordered depth in
      let all = Rep-IsOrdered t r 0 ready.well a.rep (inr (omega arith)) in
      let low_tree : height t ≤ top = deep_height t 0 top r ready.well a.rep all (omega arith) in
      not_rec-Runs prime_lte primes not_fuel j s r t ready a (omega arith) (omega arith)

  -- In a state in which operators may be called, let three protected BDDs have truth functions, with
  -- fuel above the number of levels for `ite_rec` and for the `not_rec` that it calls, and room for
  -- two references a level on the stack. Then `ite_rec` returns, operators may be called again,
  -- protected nodes and the stack are as they were, and unless an error occurred the result has the
  -- truth function that chooses the second where the first holds, and the third elsewhere.
  pub ite_rec-Denotes :
      {top : ℕ} (not_fuel fuel : ℕ) (s : Kernel) (a b c : ℕ) (f g h : Assignment → Bool)
      → Ready top s
      → Denotes s a f
      → Denotes s b g
      → Denotes s c h
      → Protected s a
      → Protected s b
      → Protected s c
      → top < not_fuel
      → top < fuel
      → length s.refstack + 2 * top ≤ s.refslots
      → (res : ℕ) × (s' : Kernel) × (ite_rec
            (makenode prime_lte)
            (not_rec (makenode prime_lte) not_fuel)
            fuel
            a
            b
            c
            s
          ≡ done res s')
        × Ready top s'
        × Retains s s'
        × (s'.refstack ≡ s.refstack)
        × ((s'.errorcond ≢ 0) ⊎ Denotes s' res (λ ρ. if f ρ then g ρ else h ρ))
  ite_rec-Denotes {top} not_fuel fuel s a b c f g h ready (t, rt, et) (u, ru, eu) (v, rv, ev) pa pb
        pc few_not few room =
      let (res, s', run, d) =
        ite_rec-Runs (not_rec (makenode prime_lte) not_fuel) (not_rec-Negates not_fuel few_not) fuel
          top 0 s a b c t u v ready (whole a t rt pa) (whole b u ru pb) (whole c v rv pc)
          (omega arith) few room in
      (
        res,
        s',
        run,
        d.ready,
        d.retains,
        d.stack,
        outcome s' (λ ρ. let x = et ρ in let y = eu ρ in let z = ev ρ in ground arith) d.fact,
      )
    where
      whole : (n : ℕ) (x : Tree) → Rep s n x → Protected s n → Arg s 0 n x
      whole n x r p = record {
        rep = r;
        held = p;
        ordered = Rep-IsOrdered x n 0 ready.well r (inr (omega arith));
      }
