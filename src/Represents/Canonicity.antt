-- ===== src/Represents/Canonicity.antt =====
-- The unique table makes BDDs canonical: two BDDs are one node exactly if they are one function.
use mo_to_buddy.Prelude.{
  ℕ, ◌<◌, ◌≡◌, sym, ◌∙◌, ap, subst, ◌↔◌, inr, Bool, true, false, if◌then◌else◌, arith,
}
use mo_to_buddy.Tree.{Tree, leaf, node, Assignment, eval, IsReduced}
use mo_to_buddy.Tree.Canonical.{Same, canonical}
use mo_to_buddy.Kernel.{Kernel}
use mo_to_buddy.Kernel.WellFormed.{WellFormed}
use mo_to_buddy.Represents.{Rep}
use mo_to_buddy.Represents.Unfold.{Rep-IsOrdered}

-- One tree has one node.
pub Rep-injective :
    {top : ℕ} {s : Kernel} (t : Tree) (m n : ℕ) → WellFormed top s → Rep s m t → Rep s n t → m ≡ n
Rep-injective (leaf b) m n w p q = p ∙ sym q
Rep-injective {top} {s} (node l t u) m n w (lm, em, am, bm) (ln, en, an, bn) =
    w.unique m n lm ln (em ∙ sym en) (Rep-injective t (s.nodes m).low (s.nodes n).low w am an)
      (Rep-injective u (s.nodes m).high (s.nodes n).high w bm bn)

pub Rep-IsReduced :
    {top : ℕ} {s : Kernel} (t : Tree) (n : ℕ) → WellFormed top s → Rep s n t → IsReduced t
Rep-IsReduced (leaf b) n w r = tt
Rep-IsReduced {top} {s} (node l t u) n w (live, e, a, b) = (
  λ same. (w.live n live).differ (
      Rep-injective t (s.nodes n).low (s.nodes n).high w a
        (subst (Rep s (s.nodes n).high) (sym same) b)),
  Rep-IsReduced t (s.nodes n).low w a,
  Rep-IsReduced u (s.nodes n).high w b,
)

const_big : (n : ℕ) (b : Bool) → n ≡ (if b then 1 else 0) → ¬ (1 < n)
const_big n true e h = omega arith
const_big n false e h = omega arith

-- One node has one tree.
pub Rep-functional : (s : Kernel) (t u : Tree) (n : ℕ) → Rep s n t → Rep s n u → t ≡ u
Rep-functional s (leaf b) (leaf c) n p q = ground arith
Rep-functional s (leaf b) (node l v v') n p (live, e, a, c) = absurd (const_big n b p live.0)
Rep-functional s (node l v v') (leaf b) n (live, e, a, c) q = absurd (const_big n b q live.0)
Rep-functional s (node l t u) (node m v v') n (live, e, a, b) (live', e', a', b') = cc (
  sym e ∙ e',
  Rep-functional s t v (s.nodes n).low a a',
  Rep-functional s u v' (s.nodes n).high b b',
)

pub Same-eq :
    {top : ℕ} {s : Kernel} (t u : Tree) (m n : ℕ)
    → WellFormed top s
    → Rep s m t
    → Rep s n u
    → Same t u
    → m ≡ n
Same-eq {top} {s} t u m n w p q same =
    let e =
      canonical t u 0 (Rep-IsOrdered t m 0 w p (inr (omega arith)))
        (Rep-IsOrdered u n 0 w q (inr (omega arith))) (Rep-IsReduced t m w p)
        (Rep-IsReduced u n w q) same in
    Rep-injective u m n w (subst (Rep s m) e p) q

-- In a well-formed table two BDDs are the same node exactly if they have the same truth function.
pub canonicity :
    {top : ℕ} {s : Kernel} (t u : Tree) (m n : ℕ)
    → WellFormed top s
    → Rep s m t
    → Rep s n u
    → (m ≡ n) ↔ ((ρ : Assignment) → eval t ρ ≡ eval u ρ)
canonicity {top} {s} t u m n w p q = (
  λ e ρ. ap (λ v. eval v ρ) (Rep-functional s t u n (subst (λ i. Rep s i t) e p) q),
  Same-eq t u m n w p q,
)
