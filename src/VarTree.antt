-- ===== src/VarTree.antt =====
-- The variable blocks of src/tree.c and of src/reorder.c: the tree that `bdd_addvarblock` and
-- `bdd_intaddvarblock` build. The pointers back to the block before are not modelled; a NULL pointer is
-- the empty tree.
pub mod Nested
pub mod Lost
pub mod Sequence
use mo_to_buddy.Prelude.{
  [], ℕ, zero, suc, ◌+◌, ◌-◌, Bool, true, not, ◌&&◌, ◌||◌, Option, none, some, List, ◌∷◌, ltb, leb,
  ◌==◌, if◌then◌else◌,
}
use mo_to_buddy.Kernel.Settings.{Argument, nat, neg}

-- A block from variable `first` to `last`, with its sequence, what is nested in it, and the next block.
pub data BddTree : Type 0 where
  null : BddTree
  block :
      (first last : ℕ)
      → (fixed : Bool) (id : ℕ) → (seq : ℕ → ℕ) → (nextlevel next : BddTree) → BddTree

-- The loop over the blocks that a new block covers: those blocks, and those behind them. `none` is a
-- partial cover.
unfoldable pub covered : ℕ → BddTree → Option (BddTree × BddTree)
covered last null = none
covered last (block f l x i q sub next) =
    let stop : Option (BddTree × BddTree) = some (block f l x i q sub null, next) in
    let more : Option (BddTree × BddTree) = elim (covered last next) [
      | none ↦ none
      | some (inner, rest) ↦ some (block f l x i q sub inner, rest)
    ] in
    if leb f last && ltb last l then none else elim next [
      | null ↦ stop
      | block f' l' x' i' q' sub' next' ↦ if ltb last f' then stop else more
    ]

-- `bddvar2level`
module _ (var2level : ℕ → ℕ) where
  -- The loops of `update_seq`: the variable of the lowest level, and the sequence by level.
  abbrev pub seq_low : ℕ → ℕ → ℕ → ℕ
  seq_low zero n low = low
  seq_low (suc rounds) n low =
      seq_low rounds (n + 1) (if ltb (var2level n) (var2level low) then n else low)

  abbrev pub seq_fill : ℕ → ℕ → ℕ → (ℕ → ℕ) → ℕ → ℕ
  seq_fill zero n low seq = seq
  seq_fill (suc rounds) n low seq =
      seq_fill rounds (n + 1) low (λ i. if i == var2level n - var2level low then n else seq i)

  unfoldable pub update_seq : ℕ → ℕ → ℕ → ℕ
  update_seq first last =
      let rounds = last + 1 - first in seq_fill rounds first (seq_low rounds first first) (λ i. 0)

  abbrev pub new_block : ℕ → ℕ → Bool → ℕ → BddTree → BddTree → BddTree
  new_block first last fixed id nextlevel next =
      block first last fixed id (update_seq first last) nextlevel next

  unfoldable pub addrange_rec : ℕ → ℕ → Bool → ℕ → BddTree → BddTree
  unfolding covered
  addrange_rec first last fixed id null =
      if ltb last first then null else new_block first last fixed id null null
  addrange_rec first last fixed id (block f l x i q sub next) =
      let t = block f l x i q sub next in
      let behind = block f l x i q sub (addrange_rec first last fixed id next) in
      let inside = block f l x i q (addrange_rec first last fixed id sub) next in
      let above : BddTree = elim (covered last t) [
        | none ↦ null
        | some (inner, rest) ↦ new_block first last fixed id inner rest
      ] in
      if ltb last first
      then null
      else if (first == f) && (last == l)
      then t
      else if ltb last f
      then new_block first last fixed id null t
      else if ltb l first
      then behind
      else if leb f first && leb last l
      then inside
      else if leb first f
      then above
      else null

-- `vartree` and `blockid`
pub record Blocks : Type 0 where
  pub vartree : BddTree
  pub blockid : ℕ

-- What a call returns: the number of the block, BDD_VAR or BDD_VARBLK.
pub data Added : Type 0 where
  added : ℕ → Added
  err_var err_varblk : Added

-- The end of both calls, with the tree that `bddtree_addrange` returned.
abbrev pub attached : BddTree → Blocks → Added × Blocks
attached null s = (err_varblk, s)
attached (block f l x i q sub next) s =
    (added s.blockid, record { vartree = block f l x i q sub next; blockid = s.blockid + 1 })

module _ (var2level : ℕ → ℕ) where
  -- The highest and the lowest level of some variables that follow one another.
  abbrev pub max_level : ℕ → ℕ → ℕ → ℕ
  max_level zero n level = level
  max_level (suc rounds) n level =
      max_level rounds (n + 1) (if ltb level (var2level n) then var2level n else level)

  abbrev pub min_level : ℕ → ℕ → ℕ → ℕ
  min_level zero n level = level
  min_level (suc rounds) n level =
      min_level rounds (n + 1) (if ltb (var2level n) level then var2level n else level)

  unfoldable pub block_is_adjacent : ℕ → ℕ → Bool
  block_is_adjacent first last =
      let rounds = last - first in
      leb first last
      && (max_level rounds (first + 1) (var2level first)
            - min_level rounds (first + 1) (var2level first)
          == last - first)

  unfoldable pub bdd_intaddvarblock : ℕ → Argument → Argument → Bool → Blocks → Added × Blocks
  bdd_intaddvarblock varnum (neg n) last fixed s = (err_var, s)
  bdd_intaddvarblock varnum (nat first) (neg n) fixed s = (err_var, s)
  bdd_intaddvarblock varnum (nat first) (nat last) fixed s =
      if leb varnum first || leb varnum last
      then (err_var, s)
      else if not (block_is_adjacent first last)
      then (err_varblk, s)
      else attached (addrange_rec var2level first last fixed s.blockid s.vartree) s

  abbrev pub least : List ℕ → ℕ → ℕ
  least [] n = n
  least (v ∷ vs) n = least vs (if ltb v n then v else n)

  abbrev pub greatest : List ℕ → ℕ → ℕ
  greatest [] n = n
  greatest (v ∷ vs) n = greatest vs (if ltb n v then v else n)

  -- `bdd_addvarblock`, on the variables that `bdd_scanset` found.
  unfoldable pub bdd_addvarblock : List ℕ → Bool → Blocks → Added × Blocks
  bdd_addvarblock [] fixed s = (err_varblk, s)
  bdd_addvarblock (v ∷ vs) fixed s =
      let first = least (v ∷ vs) v in
      let last = greatest (v ∷ vs) v in
      if not (block_is_adjacent first last)
      then (err_varblk, s)
      else attached (addrange_rec var2level first last fixed s.blockid s.vartree) s

  -- The loop of `bdd_varblockall`, over the variables from `n` on.
  unfoldable pub varblocks : ℕ → ℕ → ℕ → Blocks → Blocks
  unfolding bdd_intaddvarblock
  varblocks varnum zero n s = s
  varblocks varnum (suc rounds) n s =
      varblocks varnum rounds (n + 1) (bdd_intaddvarblock varnum (nat n) (nat n) true s).1

  unfoldable pub bdd_varblockall : ℕ → Blocks → Blocks
  unfolding varblocks
  bdd_varblockall varnum s = varblocks varnum varnum 0 s

unfoldable pub bdd_clrvarblocks : Blocks → Blocks
bdd_clrvarblocks s = record { vartree = null; blockid = 0 }
