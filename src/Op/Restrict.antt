-- ===== src/Op/Restrict.antt =====
-- `restrict_rec`, `constrain_rec` and `simplify_rec` of src/bddop.c. The fuel bounds the depth of the
-- recursion. What a call of the package keeps in global variables is a parameter.
use mo_to_buddy.Prelude.{ℕ, zero, suc, Bool, ◌&&◌, ◌||◌, none, some, ltb, ◌==◌, if◌then◌else◌}
use mo_to_buddy.Hash.{hash2, hash3}
use mo_to_buddy.Cache.{Entry, lookup, put}
use mo_to_buddy.Kernel.{done, out_of_fuel, Cmd, and_then, level, low, high, ◌>>=◌}
use mo_to_buddy.Kernel.Refs.{pushref, readref, popref}
use mo_to_buddy.Op.{cached_in, join, is_const, remember}

-- The writes to `entry` in `misccache`.
unfoldable pub misc_remember : ℕ → (Entry → Entry) → ℕ → Cmd ℕ
misc_remember hash fill res s =
    let e = fill (lookup s.caches.misc hash) in
    done res (record s {
      caches = record s.caches { misc = put s.caches.misc hash (record e { res = res }) };
    })

-- `in_set` is INSVARSET, `positive` the sign of `quantvarset`, `last` is `quantlast`, `id` is `miscid`.
module _ (make : ℕ → ℕ → ℕ → Cmd ℕ) (in_set positive : ℕ → Bool) (last id : ℕ) where
  unfoldable pub restrict_rec : ℕ → ℕ → Cmd ℕ
  unfolding join cached_in misc_remember
  restrict_rec zero r s = out_of_fuel
  restrict_rec (suc fuel) r s =
      let hash = hash2 r id in
      let one_branch = restrict_rec fuel (if positive (level s r) then high s r else low s r) s in
      let both =
        join make (λ t. level t r) (λ t. restrict_rec fuel (low t r) t)
          (λ t. restrict_rec fuel (high t r) t) s in
      if is_const r || ltb last (level s r)
      then done r s
      else elim (cached_in s.caches.misc hash (λ e. (e.a == r) && (e.c == id))) [
        | some res ↦ done res s
        | none ↦
            and_then (if in_set (level s r) then one_branch else both)
              (misc_remember hash (λ e. record e { a = r; c = id }))
      ]

-- `id` is `miscid`.
module _ (make : ℕ → ℕ → ℕ → Cmd ℕ) (id : ℕ) where
  -- The branches on the levels of the function and the care set.
  unfoldable pub constrain_split : (ℕ → ℕ → Cmd ℕ) → ℕ → ℕ → Cmd ℕ
  unfolding join
  constrain_split constrain f c s =
      if level s f == level s c
      then (if low s c == 0
          then constrain (high s f) (high s c) s
          else if high s c == 0
          then constrain (low s f) (low s c) s
          else join make (λ t. level t f) (λ t. constrain (low t f) (low t c) t)
              (λ t. constrain (high t f) (high t c) t) s)
      else if ltb (level s f) (level s c)
      then join make (λ t. level t f) (λ t. constrain (low t f) c t) (λ t. constrain (high t f) c t)
          s
      else if low s c == 0
      then constrain f (high s c) s
      else if high s c == 0
      then constrain f (low s c) s
      else join make (λ t. level t c) (λ t. constrain f (low t c) t) (λ t. constrain f (high t c) t)
          s

  unfoldable pub constrain_rec : ℕ → ℕ → ℕ → Cmd ℕ
  unfolding constrain_split cached_in misc_remember
  constrain_rec zero f c s = out_of_fuel
  constrain_rec (suc fuel) f c s =
      let hash = hash2 f c in
      let split = constrain_split (constrain_rec fuel) f c s in
      if c == 1
      then done f s
      else if is_const f
      then done f s
      else if c == f
      then done 1 s
      else if c == 0
      then done 0 s
      else elim (cached_in s.caches.misc hash (λ e. (e.a == f) && (e.b == c) && (e.c == id))) [
        | some res ↦ done res s
        | none ↦ and_then split (misc_remember hash (λ e. record e { a = f; b = c; c = id }))
      ]

abbrev pub simplify_code : ℕ
simplify_code = 11

-- `disjoin` is `apply_rec` while `applyop` is the disjunction.
module _ (make : ℕ → ℕ → ℕ → Cmd ℕ) (disjoin : ℕ → ℕ → Cmd ℕ) where
  unfoldable pub simplify_split : (ℕ → ℕ → Cmd ℕ) → ℕ → ℕ → Cmd ℕ
  unfolding join
  simplify_split simplify f d s =
      if level s f == level s d
      then (if low s d == 0
          then simplify (high s f) (high s d) s
          else if high s d == 0
          then simplify (low s f) (low s d) s
          else join make (λ t. level t f) (λ t. simplify (low t f) (low t d) t)
              (λ t. simplify (high t f) (high t d) t) s)
      else if ltb (level s f) (level s d)
      then join make (λ t. level t f) (λ t. simplify (low t f) d t) (λ t. simplify (high t f) d t) s
      else quantified s
    where
      quantified : Cmd ℕ
      quantified = do
        either ← λ t. disjoin (low t d) (high t d) t
        _ ← pushref either
        res ← λ t. simplify f (readref 1 t) t
        _ ← popref 1
        λ t. done res t

  unfoldable pub simplify_rec : ℕ → ℕ → ℕ → Cmd ℕ
  unfolding simplify_split cached_in remember
  simplify_rec zero f d s = out_of_fuel
  simplify_rec (suc fuel) f d s =
      let hash = hash3 f d simplify_code in
      let split = simplify_split (simplify_rec fuel) f d s in
      if (d == 1) || is_const f
      then done f s
      else if d == f
      then done 1 s
      else if d == 0
      then done 0 s
      else elim (cached_in s.caches.apply hash
          (λ e. (e.a == f) && (e.b == d) && (e.c == simplify_code))) [
            | some res ↦ done res s
            | none ↦
                and_then split
                  (remember hash (λ res e. record e { a = f; b = d; c = simplify_code; res = res }))
          ]
