-- ===== src/Kernel/Scan.antt =====
-- `bdd_scanset` of src/kernel.c: the variables along the high branches of a variable set.
use mo_to_buddy.Prelude.{
  ℕ, zero, suc, ◌≤◌, ◌<◌, ◌≡◌, refl, true, Option, none, some, List, [], ◌∷◌, ltb, if◌then◌else◌,
  arith,
}
use mo_to_buddy.Kernel.{Kernel, level, high}
use mo_to_buddy.Kernel.WellFormed.{WellFormed}
use mo_to_buddy.Tree.{Tree, leaf, node}

-- `for (n=r ; n > 1 ; n=HIGH(n))`, which lists the levels it meets; the fuel bounds the rounds.
unfoldable pub scan : ℕ → Kernel → ℕ → Option (List ℕ)
scan zero s n = none
scan (suc fuel) s n =
    let rest : Option (List ℕ) = elim (scan fuel s (high s n)) [
      | none ↦ none
      | some ls ↦ some (level s n ∷ ls)
    ] in
    if ltb 1 n then rest else some []

abbrev pub map_levels : (ℕ → ℕ) → List ℕ → List ℕ
map_levels f [] = []
map_levels f (l ∷ ls) = f l ∷ map_levels f ls

-- The array that the call allocates, past its check of the argument.
unfoldable pub scanset : ℕ → Kernel → ℕ → Option (List ℕ)
unfolding scan
scanset fuel s r =
    if ltb r 2
    then some []
    else elim (scan fuel s r) [ none ↦ none | some ls ↦ some (map_levels s.level2var ls) ]

-- The levels grow and lie between two bounds.
abbrev pub Between : ℕ → ℕ → List ℕ → Type 0
Between lo hi [] = Unit
Between lo hi (l ∷ ls) = (lo ≤ l) × (l < hi) × Between (suc l) hi ls

pub scan_constant : (fuel : ℕ) (s : Kernel) (n : ℕ) → n < 2 → scan (suc fuel) s n ≡ some []
unfolding scan
scan_constant fuel s n lt = ground arith

pub scan_node :
    (fuel : ℕ) (s : Kernel) (n : ℕ) (ls : List ℕ)
    → 1 < n
    → scan fuel s (high s n) ≡ some ls
    → scan (suc fuel) s n ≡ some (level s n ∷ ls)
unfolding scan
scan_node fuel s n ls big e = let node : ltb 1 n ≡ true = ground arith in rw (e, node) refl

-- The levels along the high branches of a tree.
abbrev pub high_levels : Tree → List ℕ
high_levels (leaf b) = []
high_levels (node l t u) = l ∷ high_levels u
