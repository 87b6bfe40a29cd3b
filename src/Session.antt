-- ===== src/Session.antt =====
-- What a client of the package holds: BDDs with references that it counted by `bdd_addref`, each with
-- the truth function that it was made with.
pub mod Held
pub mod Perform
pub mod Vectors
pub mod Quantify
use mo_to_buddy.Prelude.{
  [], ℕ, zero, suc, ◌+◌, ◌*◌, ◌≤◌, ◌<◌, ◌≡◌, ◌⊎◌, Bool, true, false, List, ◌∷◌, ◌==◌, if◌then◌else◌,
}
use mo_to_buddy.Tree.{Assignment}
use mo_to_buddy.Kernel.{Kernel, maxref}
use mo_to_buddy.Kernel.WellFormed.{Live}
use mo_to_buddy.Represents.{Denotes}
use mo_to_buddy.Op.Ready.{Ready}

pub record Ref : Type 0 where
  pub bdd : ℕ
  pub truth : Assignment → Bool

-- How many of the references are to one node.
abbrev pub owners : ℕ → List Ref → ℕ
owners n [] = 0
owners n (x ∷ xs) = (if n == x.bdd then 1 else 0) + owners n xs

-- Each BDD has its truth function.
abbrev pub AllTrue : Kernel → List Ref → Type 0
AllTrue s [] = Unit
AllTrue s (x ∷ xs) = Denotes s x.bdd x.truth × AllTrue s xs

-- Operators may be called, every node that is held is in use with at least the references that are
-- held, unless its count is stuck at MAXREF, and the truth functions hold unless an error occurred.
pub record Session (top : ℕ) (s : Kernel) (held : List Ref) : Type 0 where
  pub ready : Ready top s
  pub running : s.running ≡ true
  pub room : 2 * top ≤ s.refslots
  pub counted :
      (n : ℕ)
      → 1 < n
      → 0 < owners n held
      → Live s.nodesize s.nodes n
        × ((owners n held ≤ (s.nodes n).refcou) ⊎ (maxref ≤ (s.nodes n).refcou))
  pub truths : s.errorcond ≡ 0 → AllTrue s held

-- The reference at a position, or else to the constant false.
abbrev pub nth : List Ref → ℕ → Ref
nth [] i = record { bdd = 0; truth = λ ρ. false }
nth (x ∷ xs) zero = x
nth (x ∷ xs) (suc i) = nth xs i

abbrev pub remove : List Ref → ℕ → List Ref
remove [] i = []
remove (x ∷ xs) zero = xs
remove (x ∷ xs) (suc i) = x ∷ remove xs i
