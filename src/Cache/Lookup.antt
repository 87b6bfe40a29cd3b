-- ===== src/Cache/Lookup.antt =====
-- What a lookup in an operator cache of src/cache.c finds, after a store and after a reset.
use mo_to_buddy.Prelude.{
  ℕ, ◌≤◌, ◌≡◌, refl, true, false, ◌==◌, if◌then◌else◌, arith, Bool-cases, inl, inr, ◌+◌, ◌*◌, ◌<◌,
}
use mo_to_buddy.Cache.{
  Entry, Cache, init, resize, reset, slot, lookup, is_valid, put, store, store4_size_t,
}

-- No entry is of a generation to come.
abbrev pub IsPast : Cache → Type 0
IsPast c = (i : ℕ) → (c.table i).generation ≤ c.current_generation

-- What a store leaves to find in the slot of `other`: the new entry, which is valid, where the two
-- hashes share a slot, and otherwise what was there.
abbrev pub Stored : Cache → ℕ → ℕ → ℕ → ℕ → ℕ → ℕ → Type 0
Stored c hash a b k res other =
    let e = lookup (store c hash a b k res) other in
    if slot c other == slot c hash
    then (e.a ≡ a)
      × (e.b ≡ b)
      × (e.c ≡ k)
      × (e.res ≡ res)
      × (is_valid (store c hash a b k res) e ≡ true)
    else e ≡ lookup c other

valid_self : (g : ℕ) → (g == g) ≡ true
valid_self g = ground arith

-- A lookup after a store finds the stored operands and result, valid, in every hash of the same
-- slot, and what it found before in all others.
pub lookup-store : (c : Cache) (hash a b k res other : ℕ) → Stored c hash a b k res other
unfolding store put lookup
lookup-store c hash a b k res other = elim (Bool-cases (slot c other == slot c hash)) [
  | inl e ↦ rw e (refl, refl, refl, refl, valid_self c.current_generation)
  | inr e ↦ rw e refl
]

-- Nothing is found in a cache whatever the hash.
abbrev pub AllMiss : Cache → Type 0
AllMiss c = (hash : ℕ) → is_valid c (lookup c hash) ≡ false

-- A new cache has no valid entry and none to come.
pub init-AllMiss : (size : ℕ) → AllMiss (init size) × IsPast (init size)
unfolding init lookup
init-AllMiss size = (λ hash. refl, λ i. omega arith)

-- A reset and a resize of a cache without entries of generations to come leave no valid entry, and
-- none to come.
pub reset-AllMiss :
    (c : Cache) (size : ℕ)
    → IsPast c
    → (AllMiss (reset c) × IsPast (reset c)) × (AllMiss (resize c size) × IsPast (resize c size))
unfolding reset resize lookup
reset-AllMiss c size past = (
  (λ hash. let old = past (slot c hash) in ground arith, λ i. let old = past i in omega arith),
  (λ hash. ground arith, λ i. omega arith),
)

-- A write puts no entry of a generation to come.
pub put-IsPast : (c : Cache) (hash : ℕ) (e : Entry) → IsPast c → IsPast (put c hash e)
unfolding put
put-IsPast c hash e past i = elim (Bool-cases (i == slot c hash)) [
  | inl h ↦ rw h (omega arith)
  | inr h ↦ rw h (past i)
]

-- A lookup after a store of a `size_t` parameter finds the two halves of the parameter, from which it
-- is regained; the parameter is below 2^64.
pub store4_size_t-lookup :
    (c : Cache) (hash a b k param res : ℕ)
    → param < 18446744073709551616
    → let e = lookup (store4_size_t c hash a b k param res) hash in
      (e.r2 * 4294967296 + e.d ≡ param) × (e.a ≡ a) × (e.b ≡ b) × (e.c ≡ k) × (e.res ≡ res)
unfolding store4_size_t put lookup
store4_size_t-lookup c hash a b k param res fits =
    let self : (slot c hash == slot c hash) ≡ true = valid_self (slot c hash) in
    rw self (omega arith, refl, refl, refl, refl)
