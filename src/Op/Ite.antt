-- ===== src/Op/Ite.antt =====
-- `ite_rec` of src/bddop.c. The fuel bounds the depth of the recursion, and `negate` is `not_rec`.
use mo_to_buddy.Prelude.{ℕ, zero, suc, ◌&&◌, Option, none, some, ltb, ◌==◌, if◌then◌else◌}
use mo_to_buddy.Hash.{hash3}
use mo_to_buddy.Cache.{lookup, put}
use mo_to_buddy.Kernel.{Run, done, out_of_fuel, Cmd, and_then, level, low, high}
use mo_to_buddy.Op.{cached_in, join}

-- The cases that need no recursion.
unfoldable pub ite_shortcut : (ℕ → Cmd ℕ) → ℕ → ℕ → ℕ → Option (Cmd ℕ)
ite_shortcut negate f g h =
    if f == 1
    then some (done g)
    else if f == 0
    then some (done h)
    else if g == h
    then some (done g)
    else if (g == 1) && (h == 0)
    then some (done f)
    else if (g == 0) && (h == 1)
    then some (negate f)
    else none

-- The write to `entry` at the end.
unfoldable pub ite_remember : ℕ → ℕ → ℕ → ℕ → ℕ → Cmd ℕ
ite_remember hash f g h res s =
    let e = record (lookup s.caches.ite hash) { a = f; b = g; c = h; res = res } in
    done res (record s { caches = record s.caches { ite = put s.caches.ite hash e } })

module _ (make : ℕ → ℕ → ℕ → Cmd ℕ) (negate : ℕ → Cmd ℕ) where
  -- The branches on the levels of the three operands.
  unfoldable pub ite_split : (ℕ → ℕ → ℕ → Cmd ℕ) → ℕ → ℕ → ℕ → Cmd ℕ
  unfolding join
  ite_split ite f g h s =
      if lf == lg
      then (if lf == lh
          then join make (λ t. level t f) (λ t. ite (low t f) (low t g) (low t h) t)
              (λ t. ite (high t f) (high t g) (high t h) t) s
          else if ltb lf lh
          then join make (λ t. level t f) (λ t. ite (low t f) (low t g) h t)
              (λ t. ite (high t f) (high t g) h t) s
          else on_h)
      else if ltb lf lg
      then (if lf == lh
          then join make (λ t. level t f) (λ t. ite (low t f) g (low t h) t)
              (λ t. ite (high t f) g (high t h) t) s
          else if ltb lf lh
          then join make (λ t. level t f) (λ t. ite (low t f) g h t) (λ t. ite (high t f) g h t) s
          else on_h)
      else (if lg == lh
          then join make (λ t. level t g) (λ t. ite f (low t g) (low t h) t)
              (λ t. ite f (high t g) (high t h) t) s
          else if ltb lg lh
          then join make (λ t. level t g) (λ t. ite f (low t g) h t) (λ t. ite f (high t g) h t) s
          else on_h)
    where
      lf : ℕ
      lf = level s f

      lg : ℕ
      lg = level s g

      lh : ℕ
      lh = level s h

      on_h : Run ℕ
      on_h = join make (λ t. level t h) (λ t. ite f g (low t h) t) (λ t. ite f g (high t h) t) s

  unfoldable pub ite_rec : ℕ → ℕ → ℕ → ℕ → Cmd ℕ
  unfolding ite_split ite_remember
  ite_rec zero f g h s = out_of_fuel
  ite_rec (suc fuel) f g h s =
      let hash = hash3 f g h in
      elim (ite_shortcut negate f g h) [
        | some call ↦ call s
        | none ↦ elim (cached_in s.caches.ite hash (λ e. (e.a == f) && (e.b == g) && (e.c == h))) [
          | some res ↦ done res s
          | none ↦ and_then (ite_split (ite_rec fuel) f g h s) (ite_remember hash f g h)
        ]
      ]
