-- ===== src/Imatrix.antt =====
-- src/imatrix.c: the matrix of bits that says which variables interact. A row is a sequence of bytes;
-- an access past its end is no result.
pub mod Relation
use mo_to_buddy.Prelude.{
  ℕ, ◌+◌, ◌-◌, ◌/◌, ◌%◌, ◌^◌, Bool, ◌&&◌, Option, none, some, ltb, ◌==◌, if◌then◌else◌,
}
use Prim.Native.Nat.{bit_and, bit_or}

-- `imatrix`
pub record Imatrix : Type 0 where
  pub size : ℕ
  pub rows : ℕ → ℕ → ℕ

unfoldable pub imatrix_new : ℕ → Imatrix
imatrix_new size = record { size = size; rows = λ a i. 0 }

abbrev pub write_byte : Imatrix → ℕ → ℕ → ℕ → Imatrix
write_byte m a i v = record m { rows = λ c k. if (c == a) && (k == i) then v else m.rows c k }

-- Whether the byte of a bit is one that `imatrixNew` allocated: `size` rows of `size/8+1` bytes.
abbrev pub inside : Imatrix → ℕ → ℕ → Bool
inside m a b = ltb a m.size && ltb (b / 8) (m.size / 8 + 1)

unfoldable pub set_bit : Imatrix → ℕ → ℕ → Imatrix
set_bit m a b = write_byte m a (b / 8) (bit_or (m.rows a (b / 8)) (2 ^ (b % 8)))

unfoldable pub clear_bit : Imatrix → ℕ → ℕ → Imatrix
clear_bit m a b = write_byte m a (b / 8) (bit_and (m.rows a (b / 8)) (255 - 2 ^ (b % 8)))

-- The bit in its place; the C code takes any number but 0 for true.
unfoldable pub get_bit : Imatrix → ℕ → ℕ → ℕ
get_bit m a b = bit_and (m.rows a (b / 8)) (2 ^ (b % 8))

-- The three operations; `none` is an access outside the allocated bytes, which C does not define.
unfoldable pub imatrix_set : Imatrix → ℕ → ℕ → Option Imatrix
unfolding set_bit
imatrix_set m a b = if inside m a b then some (set_bit m a b) else none

unfoldable pub imatrix_clr : Imatrix → ℕ → ℕ → Option Imatrix
unfolding clear_bit
imatrix_clr m a b = if inside m a b then some (clear_bit m a b) else none

unfoldable pub imatrix_depends : Imatrix → ℕ → ℕ → Option ℕ
unfolding get_bit
imatrix_depends m a b = if inside m a b then some (get_bit m a b) else none
