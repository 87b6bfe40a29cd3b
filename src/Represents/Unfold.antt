-- ===== src/Represents/Unfold.antt =====
-- Every BDD of a well-formed table unfolds to one tree, which is ordered.
use mo_to_buddy.Prelude.{
  ℕ, zero, suc, ◌+◌, ◌≤◌, ◌<◌, refl, subst, ◌⊎◌, inl, inr, Bool, true, false, arith, ℕ_discrete,
}
use mathlib.Core.Logic.{⊎_elim}
use mo_to_buddy.Tree.{Tree, leaf, node, height, IsOrdered}
use mo_to_buddy.Kernel.{Kernel}
use mo_to_buddy.Kernel.WellFormed.{Ok, Beyond, WellFormed}
use mo_to_buddy.Represents.{Rep}

pub Rep-Ok : (s : Kernel) (n : ℕ) (t : Tree) → Rep s n t → Ok s.nodesize s.nodes n
Rep-Ok s n (leaf true) r = inl (omega arith)
Rep-Ok s n (leaf false) r = inl (omega arith)
Rep-Ok s n (node l t u) (live, e, a, b) = inr live

pub Rep-constant : (s : Kernel) (n : ℕ) → n < 2 → (b : Bool) × Rep s n (leaf b)
Rep-constant s n lt = elim (ℕ_discrete n 0) [ yes e ↦ (false, e) | no ne ↦ (true, omega arith) ]

-- The depth left below level `top` bounds the height of the tree.
Rep-exists :
    {top : ℕ} {s : Kernel} (k n : ℕ)
    → WellFormed top s
    → Ok s.nodesize s.nodes n
    → (n < 2) ⊎ (top ≤ (s.nodes n).level + k)
    → (t : Tree) × Rep s n t × (height t ≤ k)
Rep-exists {top} {s} k n w (inl c) h = let (b, r) = Rep-constant s n c in (leaf b, r, omega arith)
Rep-exists {top} {s} zero n w (inr live) h = absurd (
    ⊎_elim (λ (c : n < 2). omega (arith, live.0))
      (λ (e : top ≤ (s.nodes n).level + 0). omega (arith, (w.live n live).level)) h)
Rep-exists {top} {s} (suc k) n w (inr live) h =
    let good = w.live n live in
    let deep = λ (c : ℕ) (b : Beyond s.nodes (s.nodes n).level c). deeper c b in
    let (t, rt, ht) =
      Rep-exists k (s.nodes n).low w good.low_ok (deeper (s.nodes n).low good.low_beyond) in
    let (u, ru, hu) =
      Rep-exists k (s.nodes n).high w good.high_ok (deeper (s.nodes n).high good.high_beyond) in
    (node (s.nodes n).level t u, (live, refl, rt, ru), omega arith)
  where
    deeper : (c : ℕ) → Beyond s.nodes (s.nodes n).level c → (c < 2) ⊎ (top ≤ (s.nodes c).level + k)
    deeper c (inl small) = inl small
    deeper c (inr lt) = inr (
        ⊎_elim (λ (e : n < 2). absurd (omega (arith, live.0)))
          (λ (e : top ≤ (s.nodes n).level + suc k). omega arith) h)

-- In a well-formed table a BDD unfolds to a tree no higher than the number of levels in use.
pub unfold_tree :
    {top : ℕ} {s : Kernel} (n : ℕ)
    → WellFormed top s
    → Ok s.nodesize s.nodes n
    → (t : Tree) × Rep s n t × (height t ≤ top)
unfold_tree {top} n w ok = Rep-exists top n w ok (inr (omega arith))

pub Rep-IsOrdered :
    {top : ℕ} {s : Kernel} (t : Tree) (n j : ℕ)
    → WellFormed top s
    → Rep s n t
    → (n < 2) ⊎ (j ≤ (s.nodes n).level)
    → IsOrdered j t
Rep-IsOrdered (leaf b) n j w r h = tt
Rep-IsOrdered {top} {s} (node l t u) n j w (live, e, a, b) h =
    let good = w.live n live in
    (
      ⊎_elim (λ (c : n < 2). absurd (omega (arith, live.0)))
          (λ (c : j ≤ (s.nodes n).level). omega arith) h,
      Rep-IsOrdered t (s.nodes n).low (suc l) w a
          (subst (λ i. Beyond s.nodes i (s.nodes n).low) e good.low_beyond),
      Rep-IsOrdered u (s.nodes n).high (suc l) w b
          (subst (λ i. Beyond s.nodes i (s.nodes n).high) e good.high_beyond),
    )
