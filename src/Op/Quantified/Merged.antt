-- ===== src/Op/Quantified/Merged.antt =====
-- How `quant_rec` of src/bddop.c combines the results of its two recursive calls.
use mo_to_buddy.Prelude.{
  ℕ, suc, ◌+◌, ◌*◌, ◌≤◌, ◌<◌, ◌≡◌, refl, ◌∙◌, ap, inl, inr, Bool, length, arith, Bool-cases,
}
use mathlib.Core.Path.{ap₂}
use mo_to_buddy.Tree.{Tree, node, Assignment, eval}
use mo_to_buddy.Tree.Canonical.{IsOrdered-mono}
use mo_to_buddy.Kernel.{Kernel, level}
use mo_to_buddy.Kernel.Protected.{Protected}
use mo_to_buddy.Kernel.Makenode.{makenode}
use mo_to_buddy.Kernel.Makenode.Resize.{FindsPrimes}
use mo_to_buddy.Represents.Unfold.{unfold_tree, Rep-IsOrdered}
use mo_to_buddy.Represents.Canonicity.{Rep-functional}
use mo_to_buddy.Op.{Op, apply_rec}
use mo_to_buddy.Op.Quantify.{merge}
use mo_to_buddy.Op.Fact.{Before, Fact}
use mo_to_buddy.Op.Ready.{quantified, op_bool, Ready}
use mo_to_buddy.Op.Runs.{Runs, Pushed, makenode-Runs}
use mo_to_buddy.Op.Cofactor.{Arg}
use mo_to_buddy.Op.Apply.{apply_rec-Runs}
use mo_to_buddy.Op.Quantified.Recall.{id}

-- An operand that was pushed, with its tree.
pushed-Arg :
    {top : ℕ} {s : Kernel} {B : ℕ → Type 0} {f : Assignment → Bool} (m a : ℕ)
    → Ready top s
    → Fact s B f a
    → B m
    → Protected s a
    → (t : Tree) × Arg s (suc m) a t × (s.errorcond ≡ 0 → (ρ : Assignment) → eval t ρ ≡ f ρ)
pushed-Arg {top} {s} m a ready fact b held =
    let (t, rep, small) = unfold_tree a ready.well fact.ok in
    (
      t,
      record {
        rep = rep;
        held = held;
        ordered = Rep-IsOrdered t a (suc m) ready.well rep (fact.under m b);
      },
      λ z ρ.
          let (t', rep', same) = fact.right z in
          ap (λ v. eval v ρ) (Rep-functional s t t' a rep rep') ∙ same ρ,
    )

module _ (prime_lte : ℕ → ℕ) (primes : FindsPrimes prime_lte) where
  -- The level is quantified: the two results are combined.
  combined-Runs :
      {top : ℕ} (op : Op) (fuel k m : ℕ) (s t : Kernel) (a b : ℕ) (low_tree high_tree : Tree)
      (f1 f2 f : Assignment → Bool)
      → Pushed top s t (Before low_tree) (Before high_tree) f1 f2 a b
      → Before low_tree m
      → Before high_tree m
      → top ≤ suc m + k
      → k < fuel
      → length s.refstack + 2 + 2 * k ≤ s.refslots
      → ((ρ : Assignment) → op_bool op (f1 ρ) (f2 ρ) ≡ f ρ)
      → Runs top t
          (apply_rec (makenode prime_lte) op fuel a b)
          (Before (node m low_tree high_tree))
          f
  combined-Runs {top} op fuel k m s t a b low_tree high_tree f1 f2 f p in1 in2 depth few room same =
      let (ta, x, ex) = pushed-Arg m a p.ready p.first in1 p.held_a in
      let (tb, y, ey) = pushed-Arg m b p.ready p.second in2 p.held_b in
      let (r, s', e, d) =
        apply_rec-Runs prime_lte primes op fuel k (suc m) t a b ta tb p.ready x y depth few
          (omega (arith, p.depth, p.slots)) in
      (
        r,
        s',
        e,
        record {
          ready = d.ready;
          retains = d.retains;
          stack = d.stack;
          slots = d.slots;
          fact = record {
            ok = d.fact.ok;
            under = λ j h. d.fact.under j (
              IsOrdered-mono ta (omega (arith, h.0)) x.ordered,
              IsOrdered-mono tb (omega (arith, h.0)) y.ordered,
            );
            right = λ z.
                let (w, rep, out) = d.fact.right z in
                (
                  w,
                  rep,
                  λ ρ. out ρ ∙ ap₂ (op_bool op) (ex (d.error z) ρ) (ey (d.error z) ρ) ∙ same ρ,
                );
          };
          error = d.error;
          running = d.running;
        },
      )

  -- The two results are combined, or become a node.
  pub merge-Runs :
      {top : ℕ} (op : Op) (in_set : ℕ → Bool) (fuel last id k m r : ℕ) (s t : Kernel) (a b : ℕ)
      (low_tree high_tree : Tree)
      → Pushed top s t
          (Before low_tree)
          (Before high_tree)
          (quantified op in_set low_tree)
          (quantified op in_set high_tree)
          a
          b
      → level t r ≡ m
      → m < top
      → Before low_tree m
      → Before high_tree m
      → top ≤ suc m + k
      → k < fuel
      → length s.refstack + 2 + 2 * k ≤ s.refslots
      → Runs top t
          (merge
            (makenode prime_lte)
            (apply_rec (makenode prime_lte) op fuel)
            in_set
            last
            id
            (λ z. level z r)
            a
            b)
          (Before (node m low_tree high_tree))
          (quantified op in_set (node m low_tree high_tree))
  unfolding merge
  merge-Runs {top} op in_set fuel last id k m r s t a b low_tree high_tree p at below in1 in2 depth
        few room =
      elim (Bool-cases (in_set m)) [
        | inl e ↦
            rw (merge, at, e)
              (combined-Runs op fuel k m s t a b low_tree high_tree (quantified op in_set low_tree)
                (quantified op in_set high_tree) (quantified op in_set (node m low_tree high_tree))
                p in1 in2 depth few room (λ ρ. rw e refl))
        | inr e ↦
            rw (merge, at, e)
              (makenode-Runs prime_lte primes s t m a b (Before low_tree) (Before high_tree)
                (Before (node m low_tree high_tree)) (quantified op in_set low_tree)
                (quantified op in_set high_tree) (quantified op in_set (node m low_tree high_tree))
                p below in1 in2 (λ j h. omega (arith, h.0)) (λ ρ. rw e refl))
      ]
