-- ===== src/Terminal.antt =====
-- Terminal values of src/mtbdd.c as the node table sees them: the domain, the value table with its
-- stack of free indices, and the registered callbacks of src/terminal.c.
use mo_to_buddy.Prelude.{
  ℕ, ◌-◌, ◌/◌, ◌%◌, Bool, true, false, Option, none, some, List, ◌∷◌, ltb, ◌==◌, if◌then◌else◌,
}
use mo_to_buddy.Hash.{hash_node, hash_range}

-- `unset` is the initial value -1 of `domaintype`.
pub data Domain : Type 0 where
  unset int_val float_val char_val unsigned_val double_val ldouble_val long_val ulong_val custom :
      Domain

-- DOMAIN_NOT_SHORT
abbrev pub not_short : Domain → Bool
not_short int_val = false
not_short float_val = false
not_short unsigned_val = false
not_short _ = true

-- A value is the 64-bit pattern of a `long`, a `double` or a pointer (0 is NULL). A hash callback is
-- the user's code, so it is a function of the pointer.
pub record Terminals : Type 0 where
  pub domain : Domain
  pub value : ℕ → ℕ
  pub top : List ℕ
  pub used : ℕ
  pub max_size : ℕ
  pub type_number : ℕ
  pub hashfun : ℕ → Option (ℕ → ℕ)

abbrev pub maxlevel : ℕ
maxlevel = 0x1FFFFF

-- `mtbdd_terminal_hash_gbc` at the value with this index and type, in a table of `size` nodes.
unfoldable pub terminal_hash_gbc : Terminals → ℕ → ℕ → ℕ → ℕ
terminal_hash_gbc t size index type = go t.domain
  where
    word : ℕ
    word = t.value index

    wide : ℕ
    wide = hash_range (hash_node maxlevel (word % 4294967296) (word / 4294967296)) size

    go : Domain → ℕ
    go long_val = wide
    go double_val = wide
    go custom = elim (t.hashfun type) [
      | none ↦ hash_range (hash_node maxlevel 42 42) size
      | some f ↦ hash_range (hash_node maxlevel (f word) 42) size
    ]
    go _ = hash_range (hash_node maxlevel 42 42) size

-- Gives the index of a dead value back.
push_index : Terminals → ℕ → Terminals
push_index t index = record t { top = index ∷ t.top; used = t.used - 1 }

-- `mtbdd_delete_terminal` at a node of level MAXLEVEL with this index and type. What the user's
-- `freefun` and `free` do to the value's own memory is outside the table.
unfoldable pub delete_terminal : Terminals → ℕ → ℕ → Terminals
unfolding push_index
delete_terminal t index type = go t.domain
  where
    in_table : Terminals → Terminals
    in_table deleted = if ltb index t.max_size then deleted else t

    drop_pointer : Terminals
    drop_pointer =
        if t.value index == 0
        then t
        else push_index (record t { value = λ i. if i == index then 0 else t.value i }) index

    go : Domain → Terminals
    go long_val = in_table (push_index t index)
    go double_val = in_table (push_index t index)
    go custom = if ltb type t.type_number then in_table drop_pointer else t
    go _ = t
