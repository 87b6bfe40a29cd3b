-- ===== src/Tree.antt =====
-- The decision tree that a node of the shared graph unfolds to: what a BDD stands for.
-- A variable is named by its level, and an assignment gives each level a truth value.
pub mod Canonical
use mo_to_buddy.Prelude.{ℕ, suc, ◌≤◌, ◌≢◌, Bool, if◌then◌else◌}
use Prim.Native.Nat.{max}

pub data Tree : Type 0 where
  leaf : Bool → Tree
  node : ℕ → Tree → Tree → Tree

abbrev pub Assignment : Type 0
Assignment = ℕ → Bool

-- The low branch is taken where the variable is false.
abbrev pub eval : Tree → Assignment → Bool
eval (leaf b) ρ = b
eval (node l t u) ρ = if ρ l then eval u ρ else eval t ρ

abbrev pub height : Tree → ℕ
height (leaf b) = 0
height (node l t u) = suc (max (height t) (height u))

-- Levels grow along each path, and none is below `k`.
abbrev pub IsOrdered : ℕ → Tree → Type 0
IsOrdered k (leaf b) = Unit
IsOrdered k (node l t u) = (k ≤ l) × IsOrdered (suc l) t × IsOrdered (suc l) u

-- No node has two equal branches.
abbrev pub IsReduced : Tree → Type 0
IsReduced (leaf b) = Unit
IsReduced (node l t u) = (t ≢ u) × IsReduced t × IsReduced u
