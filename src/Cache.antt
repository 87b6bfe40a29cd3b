-- ===== src/Cache.antt =====
-- The operator caches of src/cache.c and src/cache.h: direct-mapped tables whose entries count only
-- while they carry the current generation.
pub mod Lookup
use mo_to_buddy.Prelude.{ℕ, ◌+◌, ◌/◌, ◌%◌, Bool, ◌==◌, if◌then◌else◌}
use mo_to_buddy.Hash.{hash_range}

-- `res` is the integer member of the union. The generation is an `int` that only grows; it is a
-- plain number, which is exact until 2^31 resets.
pub record Entry : Type 0 where
  pub a : ℕ
  pub b : ℕ
  pub c : ℕ
  pub d : ℕ
  pub res : ℕ
  pub r2 : ℕ
  pub generation : ℕ

pub record Cache : Type 0 where
  pub table : ℕ → Entry
  pub tablesize : ℕ
  pub current_generation : ℕ

-- An entry as `calloc` leaves it.
abbrev pub blank : Entry
blank = record { a = 0; b = 0; c = 0; d = 0; res = 0; r2 = 0; generation = 0 }

-- `size` is what `bdd_prime_gte` made of the requested size.
unfoldable pub init : ℕ → Cache
init size = record { table = λ _. blank; tablesize = size; current_generation = 1 }

unfoldable pub resize : Cache → ℕ → Cache
resize c newsize = record {
  table = λ _. blank;
  tablesize = newsize;
  current_generation = c.current_generation + 1;
}

-- `BddCache_done`; the table is freed.
abbrev pub finished : Cache → Cache
finished c = record c { table = λ _. blank; tablesize = 0 }

unfoldable pub reset : Cache → Cache
reset c = record c { current_generation = c.current_generation + 1 }

abbrev pub slot : Cache → ℕ → ℕ
slot c hash = hash_range hash c.tablesize

-- The entry that `BddCache_lookup` points to.
unfoldable pub lookup : Cache → ℕ → Entry
lookup c hash = c.table (slot c hash)

abbrev pub is_valid : Cache → Entry → Bool
is_valid c e = e.generation == c.current_generation

-- A write through the pointer to an entry, as the last thing that `BddCache_store` does.
unfoldable pub put : Cache → ℕ → Entry → Cache
put c hash e = record c {
  table =
      λ i. if i == slot c hash then record e { generation = c.current_generation } else c.table i;
}

unfoldable pub store : Cache → ℕ → ℕ → ℕ → ℕ → ℕ → Cache
unfolding put
store c hash a b k res = put c hash (record {
  a = a;
  b = b;
  c = k;
  d = 4294967295;
  res = res;
  r2 = (lookup c hash).r2;
  generation = 0;
})

-- The low and high halves of a `size_t`.
abbrev pub size_t_lo : ℕ → ℕ
size_t_lo p = p % 4294967296

abbrev pub size_t_hi : ℕ → ℕ
size_t_hi p = p / 4294967296 % 4294967296

unfoldable pub store4 : Cache → ℕ → ℕ → ℕ → ℕ → ℕ → ℕ → Cache
unfolding put
store4 c hash a b k d res =
    put c hash (record (lookup c hash) { a = a; b = b; c = k; d = d; res = res })

unfoldable pub store_pair : Cache → ℕ → ℕ → ℕ → ℕ → ℕ → ℕ → ℕ → Cache
unfolding put
store_pair c hash a b k d res1 res2 =
    put c hash (record (lookup c hash) { a = a; b = b; c = k; d = d; res = res1; r2 = res2 })

unfoldable pub store4_size_t : Cache → ℕ → ℕ → ℕ → ℕ → ℕ → ℕ → Cache
unfolding put
store4_size_t c hash a b k param res = put c hash (record (lookup c hash) {
  a = a;
  b = b;
  c = k;
  d = size_t_lo param;
  r2 = size_t_hi param;
  res = res;
})

unfoldable pub store_size_t_b : Cache → ℕ → ℕ → ℕ → ℕ → ℕ → Cache
unfolding put
store_size_t_b c hash a param k res = put c hash (record (lookup c hash) {
  a = a;
  b = size_t_lo param;
  c = k;
  d = 4294967295;
  r2 = size_t_hi param;
  res = res;
})
