-- ===== src/Represents/Frame.antt =====
-- A BDD keeps its tree while its nodes stay as they are.
use mo_to_buddy.Prelude.{ℕ, refl, sym, ◌∙◌, subst}
use mo_to_buddy.Tree.{Tree, leaf, node}
use mo_to_buddy.Kernel.{Kernel}
use mo_to_buddy.Kernel.Protected.{Protected, by_low, by_high, Keeps, Live-Keeps}
use mo_to_buddy.Kernel.Makenode.Made.{Extends}
use mo_to_buddy.Represents.{Rep}

pub Rep-Keeps :
    {s s' : Kernel} (t : Tree) (n : ℕ) → Keeps s s' → Protected s n → Rep s n t → Rep s' n t
Rep-Keeps (leaf b) n k p r = r
Rep-Keeps {s} {s'} (node l t u) n k p (live, e, a, b) =
    let same = k.node n p live.0 in
    (
      Live-Keeps k n p live,
      same.level ∙ e,
      subst (λ c. Rep s' c t) (sym same.low) (Rep-Keeps t (s.nodes n).low k (by_low p live refl) a),
      subst (λ c. Rep s' c u) (sym same.high)
          (Rep-Keeps u (s.nodes n).high k (by_high p live refl) b),
    )

pub Rep-Extends : (s s' : Kernel) (t : Tree) (n : ℕ) → Extends s s' → Rep s n t → Rep s' n t
Rep-Extends s s' (leaf b) n x r = r
Rep-Extends s s' (node l t u) n x (live, e, a, b) =
    let (live', same) = x n live in
    (
      live',
      same.level ∙ e,
      subst (λ c. Rep s' c t) (sym same.low) (Rep-Extends s s' t (s.nodes n).low x a),
      subst (λ c. Rep s' c u) (sym same.high) (Rep-Extends s s' u (s.nodes n).high x b),
    )
