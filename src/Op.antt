-- ===== src/Op.antt =====
-- The operators of src/bddop.c: `not_rec` and `apply_rec` with their cache. The recursion runs on
-- fuel that bounds its depth.
pub mod Ite
pub mod Restrict
pub mod Substitute
pub mod Quantify
pub mod Varset
pub mod Stack
pub mod Fact
pub mod Ready
pub mod Runs
pub mod Cofactor
pub mod Shortcut
pub mod Apply
pub mod Choice
pub mod Negation
pub mod Quantified
pub mod Exists
pub mod Count
pub mod Satone
pub mod Call
use mo_to_buddy.Prelude.{
  ℕ, zero, suc, Bool, ◌&&◌, ◌||◌, Option, none, some, ltb, ◌==◌, if◌then◌else◌,
}
use mo_to_buddy.Hash.{hash1, hash3}
use mo_to_buddy.Cache.{Entry, Cache, lookup, is_valid, put}
use mo_to_buddy.Kernel.{◌>>=◌, Kernel, done, out_of_fuel, Cmd, and_then, level, low, high}
use mo_to_buddy.Kernel.Refs.{pushref, readref, popref}

-- The binary operators of src/bdd.h, numbered from 0 in this order.
pub data Op : Type 0 where
  and xor or nand nor imp biimp diff less invimp : Op

abbrev pub code : Op → ℕ
code and = 0
code xor = 1
code or = 2
code nand = 3
code nor = 4
code imp = 5
code biimp = 6
code diff = 7
code less = 8
code invimp = 9

abbrev pub not_code : ℕ
not_code = 10

-- A row of `oprres`: the results at left and right 00, 01, 10, 11.
row : ℕ → ℕ → ℕ → ℕ → ℕ → ℕ → ℕ
row a b c d l r = if l == 0 then (if r == 0 then a else b) else (if r == 0 then c else d)

unfoldable pub oprres : Op → ℕ → ℕ → ℕ
unfolding row
oprres and = row 0 0 0 1
oprres xor = row 0 1 1 0
oprres or = row 0 1 1 1
oprres nand = row 1 1 1 0
oprres nor = row 1 0 0 0
oprres imp = row 1 1 0 1
oprres biimp = row 1 0 0 1
oprres diff = row 0 0 1 0
oprres less = row 0 1 0 0
oprres invimp = row 1 0 1 1

-- The `switch` at the head of `apply_rec`: the operands that decide the result at once.
unfoldable pub shortcut : Op → ℕ → ℕ → Option ℕ
shortcut and l r =
    if l == r
    then some l
    else if (l == 0) || (r == 0)
    then some 0
    else if l == 1
    then some r
    else if r == 1
    then some l
    else none
shortcut or l r =
    if l == r
    then some l
    else if (l == 1) || (r == 1)
    then some 1
    else if l == 0
    then some r
    else if r == 0
    then some l
    else none
shortcut xor l r =
    if l == r then some 0 else if l == 0 then some r else if r == 0 then some l else none
shortcut nand l r = if (l == 0) || (r == 0) then some 1 else none
shortcut nor l r = if (l == 1) || (r == 1) then some 0 else none
shortcut imp l r =
    if l == 0 then some 1 else if l == 1 then some r else if r == 1 then some 1 else none
shortcut _ l r = none

abbrev pub is_const : ℕ → Bool
is_const n = ltb n 2

abbrev pub with_apply : Cache → Kernel → Kernel
with_apply c s = record s { caches = record s.caches { apply = c } }

abbrev pub entry_at : Kernel → ℕ → Entry
entry_at s hash = lookup s.caches.apply hash

-- A result that a cache holds.
unfoldable pub cached_in : Cache → ℕ → (Entry → Bool) → Option ℕ
cached_in c hash fits = let e = lookup c hash in if is_valid c e && fits e then some e.res else none

unfoldable pub cached : ℕ → (Entry → Bool) → Kernel → Option ℕ
unfolding cached_in
cached hash fits s = cached_in s.caches.apply hash fits

-- The two recursive results, computed one after the other, are pushed on the reference stack,
-- combined, and popped.
unfoldable pub join_with : (ℕ → ℕ → Cmd ℕ) → Cmd ℕ → Cmd ℕ → Cmd ℕ
join_with combine first second = do
  a ← first
  _ ← pushref a
  b ← second
  _ ← pushref b
  res ← λ s. combine (readref 2 s) (readref 1 s) s
  _ ← popref 2
  λ s. done res s

-- They are combined to a node of level `l`.
unfoldable pub join : (ℕ → ℕ → ℕ → Cmd ℕ) → (Kernel → ℕ) → Cmd ℕ → Cmd ℕ → Cmd ℕ
unfolding join_with
join make l first second = join_with (λ a b s. make (l s) a b s) first second

-- The writes to `entry` at the end of `not_rec` and `apply_rec`.
abbrev pub fill_not : ℕ → ℕ → Entry → Entry
fill_not r res e = record e { a = r; c = not_code; res = res }

abbrev pub fill_apply : Op → ℕ → ℕ → ℕ → Entry → Entry
fill_apply op l r res e = record e { a = l; b = r; c = code op; res = res }

unfoldable pub remember : ℕ → (ℕ → Entry → Entry) → ℕ → Cmd ℕ
remember hash fill res s =
    done res (with_apply (put s.caches.apply hash (fill res (entry_at s hash))) s)

-- `bdd_makenode` is a parameter here, so that the operators do not depend on how room is made.
module _ (make : ℕ → ℕ → ℕ → Cmd ℕ) where
  unfoldable pub not_rec : ℕ → ℕ → Cmd ℕ
  unfolding join remember cached
  not_rec zero r s = out_of_fuel
  not_rec (suc fuel) r s =
      let hash = hash1 r in
      let compute =
        join make (λ t. level t r) (λ t. not_rec fuel (low t r) t)
          (λ t. not_rec fuel (high t r) t) in
      if r == 0
      then done 1 s
      else if r == 1
      then done 0 s
      else elim (cached hash (λ e. (e.a == r) && (e.c == not_code)) s) [
        | some res ↦ done res s
        | none ↦ and_then (compute s) (remember hash (fill_not r))
      ]

  -- The level of the new node, and the four operands of the recursive calls.
  unfoldable pub split : (ℕ → ℕ → Cmd ℕ) → ℕ → ℕ → Cmd ℕ
  unfolding join
  split apply l r s =
      if level s l == level s r
      then join make (λ t. level t l) (λ t. apply (low t l) (low t r) t)
          (λ t. apply (high t l) (high t r) t) s
      else if ltb (level s l) (level s r)
      then join make (λ t. level t l) (λ t. apply (low t l) r t) (λ t. apply (high t l) r t) s
      else join make (λ t. level t r) (λ t. apply l (low t r) t) (λ t. apply l (high t r) t) s

  unfoldable pub apply_rec : Op → ℕ → ℕ → ℕ → Cmd ℕ
  unfolding split remember cached
  apply_rec op zero l r s = out_of_fuel
  apply_rec op (suc fuel) l r s =
      let hash = hash3 l r (code op) in
      elim (shortcut op l r) [
        | some res ↦ done res s
        | none ↦
            if is_const l && is_const r
            then done (oprres op l r) s
            else elim (cached hash (λ e. (e.a == l) && (e.b == r) && (e.c == code op)) s) [
              | some res ↦ done res s
              | none ↦
                  and_then (split (apply_rec op fuel) l r s) (remember hash (fill_apply op l r))
            ]
      ]
