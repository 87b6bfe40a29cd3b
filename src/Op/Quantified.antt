-- ===== src/Op/Quantified.antt =====
-- The recursion of `quant_rec` in src/bddop.c quantifies the variables of the set away.
pub mod Recall
pub mod Merged
use mo_to_buddy.Prelude.{
  ℕ, zero, suc, ◌+◌, ◌-◌, ◌*◌, ◌≤◌, ◌<◌, ◌≡◌, refl, sym, ap, inl, inr, Bool, true, false, ◌||◌,
  length, ltb, arith, Option-cases, Bool-cases,
}
use mo_to_buddy.Tree.{Tree, leaf, node, IsOrdered}
use mo_to_buddy.Hash.{hash1}
use mo_to_buddy.Kernel.{Kernel, Cmd, level, low, high}
use mo_to_buddy.Kernel.Makenode.{makenode}
use mo_to_buddy.Kernel.Makenode.Resize.{FindsPrimes}
use mo_to_buddy.Represents.{Rep}
use mo_to_buddy.Op.{Op, cached_in, join_with, apply_rec}
use mo_to_buddy.Op.Quantify.{quant_rec, merge}
use mo_to_buddy.Op.Stack.{same_nodes-Retains, push, Retains, Retains-trans, push-Retains}
use mo_to_buddy.Op.Fact.{Before, Fact, Fact-weaken, self-Fact}
use mo_to_buddy.Op.Ready.{Quantifier, tag, merger, quantified, Ready, push-Ready}
use mo_to_buddy.Op.Runs.{Runs, here-Good, join_with-Runs}
use mo_to_buddy.Op.Cofactor.{Arg, Arg-Retains, child_args}
use mo_to_buddy.Op.Quantified.Merged.{merge-Runs}
pub use mo_to_buddy.Op.Quantified.Recall.{Setup}
use mo_to_buddy.Op.Quantified.Recall.{
  quantified-none, fits, noted, run_stop, run_hit, run_miss, Setup-Retains, id, hit-Fact,
  remembered,
}

-- Where the recursion stops, nothing is left to quantify.
stop-Fact :
    {s : Kernel} (op : Op) (set : ℕ → Bool) (last r : ℕ) (t : Tree)
    → Rep s r t
    → ((l : ℕ) → last < l → set l ≡ false)
    → (j : ℕ) → IsOrdered j t
    → (ltb r 2 || ltb last (level s r)) ≡ true
    → Fact s (Before t) (quantified op set t) r
stop-Fact {s} op set last r (leaf b) rep none_past j o e = self-Fact s (leaf b) r rep
stop-Fact {s} op set last r (node l t u) rep none_past j o e =
    Fact-weaken s (λ i b. b)
      (λ ρ.
        let big = rep.0.0 in
        let far : last < level s r = ground arith in
        sym (quantified-none op set last (node l t u) ρ none_past (omega (arith, rep.1), o.1, o.2)))
      (self-Fact s (node l t u) r rep)

module _ (prime_lte : ℕ → ℕ) (primes : FindsPrimes prime_lte) where
  -- The recursive calls are on the two children.
  children-Runs :
      {top : ℕ} (q : Quantifier) (last id : ℕ) (in_set : ℕ → Bool) (apply_fuel k j : ℕ) (s : Kernel)
      (r m : ℕ) (x y : Tree) (call : ℕ → Cmd ℕ)
      → ((s' : Kernel) (n : ℕ) (w : Tree)
          → Ready top s'
          → Retains s s'
          → Arg s' (suc m) n w
          → length s'.refstack ≤ length s.refstack + 1
          → s'.refslots ≡ s.refslots
          → Runs top s' (call n) (Before w) (quantified (merger q) in_set w))
      → Ready top s
      → Arg s j r (node m x y)
      → top ≤ j + k
      → k < apply_fuel
      → length s.refstack + 2 * k ≤ s.refslots
      → Runs top s
          (join_with
            (merge
              (makenode prime_lte)
              (apply_rec (makenode prime_lte) (merger q) apply_fuel)
              in_set
              last
              id
              (λ z. level z r))
            (λ z. call (low z r) z)
            (λ z. call (high z r) z))
          (Before (node m x y))
          (quantified (merger q) in_set (node m x y))
  children-Runs {top} q last id in_set apply_fuel k j s r m x y call calls ready a depth few room =
      let below : m < top = omega (arith, a.rep.1, (ready.well.live r a.rep.0).level) in
      let (from, deep) : (j ≤ m) × (0 < k) = (a.ordered.0, omega (arith, a.ordered.0)) in
      let still : Retains s s = same_nodes-Retains s s.refstack (λ n m. m) in
      join_with-Runs
        (merge (makenode prime_lte) (apply_rec (makenode prime_lte) (merger q) apply_fuel) in_set
          last id (λ z. level z r))
        (λ z. call (low z r) z) (λ z. call (high z r) z) s
        (calls s (low s r) x ready still ((child_args s j r m x y a).0) (omega arith) refl)
        (λ b s1 g.
          let later : Retains s (push b s1) = Retains-trans g.retains (push-Retains s1 b) in
          calls (push b s1) (high s1 r) y (push-Ready b g.ready g.fact.ok) later
            ((child_args (push b s1) j r m x y (Arg-Retains later a)).1)
            (omega (arith, ap length g.stack)) g.slots)
        (λ b c z p.
          merge-Runs prime_lte primes (merger q) in_set apply_fuel last id (k - 1) m r s z b c x y p
            (Arg-Retains p.retains a).rep.1 below a.ordered.1 a.ordered.2 (omega arith)
            (omega arith) (omega arith))
        (omega arith)

  -- By induction on the fuel, which is above the number of levels left below `top`.
  pub quant_rec-Runs :
      {top : ℕ} (q : Quantifier) (var last : ℕ) (in_set : ℕ → Bool) (v : Tree)
      (apply_fuel fuel k j : ℕ) (s : Kernel) (r : ℕ) (t : Tree)
      → Ready top s
      → Setup s q var in_set last v
      → Arg s j r t
      → top ≤ j + k
      → k < fuel
      → k < apply_fuel
      → length s.refstack + 2 * k ≤ s.refslots
      → Runs top s
          (quant_rec
            (makenode prime_lte)
            (apply_rec (makenode prime_lte) (merger q) apply_fuel)
            in_set
            last
            (var * 8 + tag q)
            fuel
            r)
          (Before t)
          (quantified (merger q) in_set t)
  quant_rec-Runs q var last in_set v apply_fuel zero k j s r t ready setup a depth few few' room =
      absurd (omega arith)
  quant_rec-Runs {top} q var last in_set v apply_fuel (suc fuel) k j s r (leaf c) ready setup a
        depth few few' room =
      let small : r < 2 = leaf_small c a.rep in
      (
        r,
        s,
        run_stop q var last in_set v (makenode prime_lte)
            (apply_rec (makenode prime_lte) (merger q) apply_fuel) fuel r s (ground arith),
        here-Good ready (self-Fact s (leaf c) r a.rep),
      )
    where
      leaf_small : (b : Bool) → Rep s r (leaf b) → r < 2
      leaf_small true e = omega arith
      leaf_small false e = omega arith
  quant_rec-Runs {top} q var last in_set v apply_fuel (suc fuel) k j s r (node m x y) ready setup a
        depth few few' room =
      let id = var * 8 + tag q in
      let make = makenode prime_lte in
      let combine = apply_rec make (merger q) apply_fuel in
      let t = node m x y in
      elim (Bool-cases (ltb r 2 || ltb last (level s r))) [
        | inl e ↦ (
          r,
          s,
          run_stop q var last in_set v make combine fuel r s e,
          here-Good ready
              (stop-Fact (merger q) in_set last r t a.rep setup.none_past j a.ordered e),
        )
        | inr e ↦ elim (Option-cases (cached_in s.caches.quant (hash1 r) (fits r id))) [
          | inr (res, h) ↦ (
            res,
            s,
            run_hit q var last in_set v make combine fuel r s res e h,
            here-Good ready (hit-Fact q var last in_set v r res t ready a.rep setup h),
          )
          | inl h ↦
              let below : m < top = omega (arith, a.rep.1, (ready.well.live r a.rep.0).level) in
              let deep : (j ≤ m) × (0 < k) = (a.ordered.0, omega (arith, a.ordered.0)) in
              let (res, s', run, g) =
                children-Runs q last id in_set apply_fuel k j s r m x y
                  (quant_rec make combine in_set last id fuel)
                  (λ s' n w ready' later b shallow slots.
                    quant_rec-Runs q var last in_set v apply_fuel fuel (k - 1) (suc m) s' n w ready'
                      (Setup-Retains later setup) b (omega (arith, deep.0)) (omega (arith, deep.1))
                      (omega arith) (omega (arith, deep.1)))
                  ready a depth few' room in
              (
                res,
                noted r id res s',
                run_miss q var last in_set v make combine fuel r s res s' e h run,
                remembered q var last in_set v j r res t a setup g,
              )
        ]
      ]
