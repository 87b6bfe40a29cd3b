-- ===== src/Tree/Canonical.antt =====
-- Ordered and reduced trees are canonical: equal functions have equal trees.
use mo_to_buddy.Prelude.{
  ℕ, suc, ◌≤◌, ◌<◌, ◌≡◌, refl, sym, ◌∙◌, ap, subst, Bool, true, false, if◌then◌else◌, ◌==◌, arith,
  inl, inr, compare_cases,
}
use mo_to_buddy.Tree.{Tree, leaf, node, Assignment, eval, IsOrdered, IsReduced}

-- The assignment `ρ` with level `l` set to `b`.
abbrev pub assign : Assignment → ℕ → Bool → Assignment
assign ρ l b i = if i == l then b else ρ i

pub IsOrdered-mono : (t : Tree) {j k : ℕ} → j ≤ k → IsOrdered k t → IsOrdered j t
IsOrdered-mono (leaf b) h o = tt
IsOrdered-mono (node l t u) h (p, q, r) = (omega arith, q, r)

-- A tree does not depend on a level below all of its own.
pub eval-assign :
    (t : Tree) (l k : ℕ) (b : Bool) (ρ : Assignment)
    → IsOrdered k t
    → l < k
    → eval t (assign ρ l b) ≡ eval t ρ
eval-assign (leaf c) l k b ρ o h = refl
eval-assign (node m t u) l k b ρ (p, q, r) h = ground (
  arith,
  eval-assign t l (suc m) b ρ q (omega arith),
  eval-assign u l (suc m) b ρ r (omega arith),
)

abbrev pub Same : Tree → Tree → Type 0
Same t u = (ρ : Assignment) → eval t ρ ≡ eval u ρ

assign_self : (ρ : Assignment) (l : ℕ) (b : Bool) → assign ρ l b l ≡ b
assign_self ρ l b = ground arith

-- Both branches of a node agree with a function that ignores the node's level.
low-Same :
    (l : ℕ) (t u v : Tree)
    → IsOrdered (suc l) t
    → IsOrdered (suc l) v
    → Same (node l t u) v
    → Same t v
low-Same l t u v ot ov s ρ = ground (
  arith,
  s (assign ρ l false),
  assign_self ρ l false,
  eval-assign t l (suc l) false ρ ot (omega arith),
  eval-assign v l (suc l) false ρ ov (omega arith),
)

high-Same :
    (l : ℕ) (t u v : Tree)
    → IsOrdered (suc l) u
    → IsOrdered (suc l) v
    → Same (node l t u) v
    → Same u v
high-Same l t u v ou ov s ρ = ground (
  arith,
  s (assign ρ l true),
  assign_self ρ l true,
  eval-assign u l (suc l) true ρ ou (omega arith),
  eval-assign v l (suc l) true ρ ov (omega arith),
)

Same-low :
    (l : ℕ) (t u v w : Tree)
    → IsOrdered (suc l) t
    → IsOrdered (suc l) v
    → Same (node l t u) (node l v w)
    → Same t v
Same-low l t u v w ot ov s ρ = ground (
  arith,
  s (assign ρ l false),
  assign_self ρ l false,
  eval-assign t l (suc l) false ρ ot (omega arith),
  eval-assign v l (suc l) false ρ ov (omega arith),
)

Same-high :
    (l : ℕ) (t u v w : Tree)
    → IsOrdered (suc l) u
    → IsOrdered (suc l) w
    → Same (node l t u) (node l v w)
    → Same u w
Same-high l t u v w ou ow s ρ = ground (
  arith,
  s (assign ρ l true),
  assign_self ρ l true,
  eval-assign u l (suc l) true ρ ou (omega arith),
  eval-assign w l (suc l) true ρ ow (omega arith),
)

leaf_node :
    (b : Bool) (l : ℕ) (t u : Tree)
    → IsOrdered (suc l) t
    → IsOrdered (suc l) u
    → Same (node l t u) (leaf b)
    → Same (leaf b) t × Same (leaf b) u
leaf_node b l t u ot ou s =
    (λ ρ. sym (low-Same l t u (leaf b) ot tt s ρ), λ ρ. sym (high-Same l t u (leaf b) ou tt s ρ))

-- Two ordered and reduced trees with the same function are equal.
pub canonical :
    (t u : Tree) (k : ℕ)
    → IsOrdered k t
    → IsOrdered k u
    → IsReduced t
    → IsReduced u
    → Same t u
    → t ≡ u
canonical (leaf b) (leaf c) k ot ou rt ru s = ap leaf (s (λ _. false))
canonical (leaf b) (node l t u) k ot (p, q, r) rt (ne, rq, rr) s =
    let (st, su) = leaf_node b l t u q r (λ ρ. sym (s ρ)) in
    absurd (
      ne (
        sym (canonical (leaf b) t (suc l) tt q tt rq st)
        ∙ canonical (leaf b) u (suc l) tt r tt rr su))
canonical (node l t u) (leaf b) k (p, q, r) ou (ne, rq, rr) ru s =
    let (st, su) = leaf_node b l t u q r s in
    absurd (
      ne (
        canonical t (leaf b) (suc l) q tt rq tt (λ ρ. sym (st ρ))
        ∙ sym (canonical u (leaf b) (suc l) r tt rr tt (λ ρ. sym (su ρ)))))
canonical (node l t u) (node m v w) k (p, q, r) (p', q', r') (ne, rq, rr) (ne', rq', rr') s =
    elim (compare_cases l m) [
      | inl lt ↦
          let ou' : IsOrdered (suc l) (node m v w) = (lt, q', r') in
          absurd (
            ne (
              canonical t (node m v w) (suc l) q ou' rq (ne', rq', rr')
                (low-Same l t u (node m v w) q ou' s)
              ∙ sym (
                  canonical u (node m v w) (suc l) r ou' rr (ne', rq', rr')
                    (high-Same l t u (node m v w) r ou' s))))
      | inr (inl e) ↦
          let qv : IsOrdered (suc l) v = subst (λ i. IsOrdered (suc i) v) (sym e) q' in
          let rw' : IsOrdered (suc l) w = subst (λ i. IsOrdered (suc i) w) (sym e) r' in
          let s' : Same (node l t u) (node l v w) =
            subst (λ i. Same (node l t u) (node i v w)) (sym e) s in
          cc (
            canonical t v (suc l) q qv rq rq' (Same-low l t u v w q qv s'),
            canonical u w (suc l) r rw' rr rr' (Same-high l t u v w r rw' s'),
          )
      | inr (inr gt) ↦
          let ot' : IsOrdered (suc m) (node l t u) = (gt, q, r) in
          let s' : Same (node m v w) (node l t u) = λ ρ. sym (s ρ) in
          absurd (
            ne' (
              sym (
                canonical (node l t u) v (suc m) ot' q' (ne, rq, rr) rq'
                  (λ ρ. sym (low-Same m v w (node l t u) q' ot' s' ρ)))
              ∙ canonical (node l t u) w (suc m) ot' r' (ne, rq, rr) rr'
                  (λ ρ. sym (high-Same m v w (node l t u) r' ot' s' ρ))))
    ]
