-- ===== src/Op/Substitute.antt =====
-- `replace_rec`, `bdd_correctify` and `compose_rec` of src/bddop.c. The fuel bounds the depth of the
-- recursion. What a call of the package keeps in global variables is a parameter.
use mo_to_buddy.Prelude.{ℕ, zero, suc, ◌&&◌, ◌||◌, none, some, ltb, ◌==◌, if◌then◌else◌}
use mo_to_buddy.Hash.{hash1, hash2}
use mo_to_buddy.Cache.{Entry, lookup, put}
use mo_to_buddy.Kernel.{done, out_of_fuel, Cmd, and_then, level, low, high}
use mo_to_buddy.Op.{cached_in, join, join_with, is_const}

-- The writes to `entry` in `replacecache`.
unfoldable pub replace_remember : ℕ → (Entry → Entry) → ℕ → Cmd ℕ
replace_remember hash fill res s =
    let e = fill (lookup s.caches.replace hash) in
    done res (record s {
      caches = record s.caches { replace = put s.caches.replace hash (record e { res = res }) };
    })

module _ (make : ℕ → ℕ → ℕ → Cmd ℕ) where
  -- A level that stands at the root of an operand already is reported, and the result is 0.
  unfoldable pub correctify : ℕ → ℕ → ℕ → ℕ → Cmd ℕ
  unfolding join
  correctify zero l a b s = out_of_fuel
  correctify (suc fuel) l a b s =
      let equal =
        join make (λ t. level t a) (λ t. correctify fuel l (low t a) (low t b) t)
          (λ t. correctify fuel l (high t a) (high t b) t) s in
      let left =
        join make (λ t. level t a) (λ t. correctify fuel l (low t a) b t)
          (λ t. correctify fuel l (high t a) b t) s in
      let right =
        join make (λ t. level t b) (λ t. correctify fuel l a (low t b) t)
          (λ t. correctify fuel l a (high t b) t) s in
      if ltb l (level s a) && ltb l (level s b)
      then make l a b s
      else if (l == level s a) || (l == level s b)
      then done 0 s
      else if level s a == level s b
      then equal
      else if ltb (level s a) (level s b)
      then left
      else right

-- `pair` is `replacepair`, `last` is `replacelast`, `id` is `replaceid`; `correct` is
-- `bdd_correctify`.
module _ (correct : ℕ → ℕ → ℕ → Cmd ℕ) (pair : ℕ → ℕ) (last id : ℕ) where
  unfoldable pub replace_rec : ℕ → ℕ → Cmd ℕ
  unfolding join_with cached_in replace_remember
  replace_rec zero r s = out_of_fuel
  replace_rec (suc fuel) r s =
      let hash = hash1 r in
      let both =
        join_with (λ a b t. correct (level t (pair (level t r))) a b t)
          (λ t. replace_rec fuel (low t r) t) (λ t. replace_rec fuel (high t r) t) s in
      if is_const r || ltb last (level s r)
      then done r s
      else elim (cached_in s.caches.replace hash (λ e. (e.a == r) && (e.c == id))) [
        | some res ↦ done res s
        | none ↦ and_then both (replace_remember hash (λ e. record e { a = r; c = id }))
      ]

-- `at` is `composelevel`, `id` is `replaceid`.
module _ (make ite : ℕ → ℕ → ℕ → Cmd ℕ) (at id : ℕ) where
  -- The branches on the levels above the composed one.
  unfoldable pub compose_split : (ℕ → ℕ → Cmd ℕ) → ℕ → ℕ → Cmd ℕ
  unfolding join
  compose_split compose f g s =
      if level s f == level s g
      then join make (λ t. level t f) (λ t. compose (low t f) (low t g) t)
          (λ t. compose (high t f) (high t g) t) s
      else if ltb (level s f) (level s g)
      then join make (λ t. level t f) (λ t. compose (low t f) g t) (λ t. compose (high t f) g t) s
      else join make (λ t. level t g) (λ t. compose f (low t g) t) (λ t. compose f (high t g) t) s

  unfoldable pub compose_rec : ℕ → ℕ → ℕ → Cmd ℕ
  unfolding compose_split cached_in replace_remember
  compose_rec zero f g s = out_of_fuel
  compose_rec (suc fuel) f g s =
      let hash = hash2 f g in
      let split = compose_split (compose_rec fuel) f g s in
      if ltb at (level s f)
      then done f s
      else elim (cached_in s.caches.replace hash (λ e. (e.a == f) && (e.b == g) && (e.c == id))) [
        | some res ↦ done res s
        | none ↦
            and_then (if ltb (level s f) at then split else ite g (high s f) (low s f) s)
              (replace_remember hash (λ e. record e { a = f; b = g; c = id }))
      ]
