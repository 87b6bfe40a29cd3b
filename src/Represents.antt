-- ===== src/Represents.antt =====
-- What a node of the shared graph stands for: the decision tree that it unfolds to.
pub mod Unfold
pub mod Canonicity
pub mod Frame
pub mod Referenced
use mo_to_buddy.Prelude.{ℕ, ◌≡◌, Bool, if◌then◌else◌}
use mo_to_buddy.Tree.{Tree, leaf, node, Assignment, eval}
use mo_to_buddy.Kernel.{Kernel}
use mo_to_buddy.Kernel.WellFormed.{Live}

-- The BDD `n` unfolds to a tree.
abbrev pub Rep : Kernel → ℕ → Tree → Type 0
Rep s n (leaf b) = n ≡ (if b then 1 else 0)
Rep s n (node l t u) =
    Live s.nodesize s.nodes n
    × ((s.nodes n).level ≡ l)
    × Rep s (s.nodes n).low t
    × Rep s (s.nodes n).high u

-- The BDD `n` has the truth function `f`.
abbrev pub Denotes : Kernel → ℕ → (Assignment → Bool) → Type 0
Denotes s n f = (t : Tree) × Rep s n t × ((ρ : Assignment) → eval t ρ ≡ f ρ)
