-- ===== src/Op/Quantify.antt =====
-- `quant_rec` and `appquant_rec` of src/bddop.c. The fuel bounds the depth of the recursion. What a
-- call of the package keeps in global variables is a parameter.
use mo_to_buddy.Prelude.{
  ℕ, zero, suc, Bool, ◌&&◌, ◌||◌, Option, none, some, ltb, ◌==◌, if◌then◌else◌,
}
use mo_to_buddy.Hash.{hash1, hash2}
use mo_to_buddy.Cache.{lookup, put}
use mo_to_buddy.Kernel.{Kernel, done, out_of_fuel, Cmd, and_then, level, low, high}
use mo_to_buddy.Op.{Op, and, or, xor, nand, nor, oprres, cached_in, join_with, is_const}

-- The writes to `entry` in `quantcache` and in `appexcache`.
unfoldable pub quant_remember : ℕ → ℕ → ℕ → ℕ → Cmd ℕ
quant_remember hash r id res s =
    let e = record (lookup s.caches.quant hash) { a = r; c = id; res = res } in
    done res (record s { caches = record s.caches { quant = put s.caches.quant hash e } })

unfoldable pub appex_remember : ℕ → ℕ → ℕ → ℕ → ℕ → Cmd ℕ
appex_remember hash l r id res s =
    let e = record (lookup s.caches.appex hash) { a = l; b = r; c = id; res = res } in
    done res (record s { caches = record s.caches { appex = put s.caches.appex hash e } })

-- `combine` is `apply_rec` at `applyop`, `in_set` is INVARSET, `last` is `quantlast`, `id` is
-- `quantid`.
module _ (make : ℕ → ℕ → ℕ → Cmd ℕ) (combine : ℕ → ℕ → Cmd ℕ) (in_set : ℕ → Bool)
    (last id : ℕ) where
  -- The two results become a node of level `l`, or are combined if its variable is quantified.
  unfoldable pub merge : (Kernel → ℕ) → ℕ → ℕ → Cmd ℕ
  merge l a b s = if in_set (l s) then combine a b s else make (l s) a b s

  unfoldable pub quant_rec : ℕ → ℕ → Cmd ℕ
  unfolding merge quant_remember
  quant_rec zero r s = out_of_fuel
  quant_rec (suc fuel) r s =
      let hash = hash1 r in
      let both =
        join_with (merge (λ t. level t r)) (λ t. quant_rec fuel (low t r) t)
          (λ t. quant_rec fuel (high t r) t) s in
      if ltb r 2 || ltb last (level s r)
      then done r s
      else elim (cached_in s.caches.quant hash (λ e. (e.a == r) && (e.c == id))) [
        | some res ↦ done res s
        | none ↦ and_then both (quant_remember hash r id)
      ]

  -- The `switch` at the head of `appquant_rec`.
  unfoldable pub appquant_shortcut : (ℕ → Cmd ℕ) → Op → ℕ → ℕ → Option (Cmd ℕ)
  appquant_shortcut quant and l r =
      if (l == 0) || (r == 0)
      then some (done 0)
      else if l == r
      then some (quant l)
      else if l == 1
      then some (quant r)
      else if r == 1
      then some (quant l)
      else none
  appquant_shortcut quant or l r =
      if (l == 1) || (r == 1)
      then some (done 1)
      else if l == r
      then some (quant l)
      else if l == 0
      then some (quant r)
      else if r == 0
      then some (quant l)
      else none
  appquant_shortcut quant xor l r =
      if l == r
      then some (done 0)
      else if l == 0
      then some (quant r)
      else if r == 0
      then some (quant l)
      else none
  appquant_shortcut quant nand l r = if (l == 0) || (r == 0) then some (done 1) else none
  appquant_shortcut quant nor l r = if (l == 1) || (r == 1) then some (done 0) else none
  appquant_shortcut quant _ l r = none

  unfoldable pub appquant_split : (ℕ → ℕ → Cmd ℕ) → ℕ → ℕ → Cmd ℕ
  unfolding merge join_with
  appquant_split appquant l r s =
      if level s l == level s r
      then join_with (merge (λ t. level t l)) (λ t. appquant (low t l) (low t r) t)
          (λ t. appquant (high t l) (high t r) t) s
      else if ltb (level s l) (level s r)
      then join_with (merge (λ t. level t l)) (λ t. appquant (low t l) r t)
          (λ t. appquant (high t l) r t) s
      else join_with (merge (λ t. level t r)) (λ t. appquant l (low t r) t)
          (λ t. appquant l (high t r) t) s

  -- `apply` is `apply_rec` at `appexop`, `quant` is `quant_rec`, `appexid` tags the entries.
  module _ (apply : ℕ → ℕ → Cmd ℕ) (quant : ℕ → Cmd ℕ) (op : Op) (appexid : ℕ) where
    unfoldable pub appquant_rec : ℕ → ℕ → ℕ → Cmd ℕ
    unfolding appquant_shortcut appquant_split oprres cached_in appex_remember
    appquant_rec zero l r s = out_of_fuel
    appquant_rec (suc fuel) l r s =
        let hash = hash2 l r in
        let split = appquant_split (appquant_rec fuel) l r s in
        elim (appquant_shortcut quant op l r) [
          | some call ↦ call s
          | none ↦
              if is_const l && is_const r
              then done (oprres op l r) s
              else if ltb last (level s l) && ltb last (level s r)
              then apply l r s
              else elim (cached_in s.caches.appex hash
                  (λ e. (e.a == l) && (e.b == r) && (e.c == appexid))) [
                    | some res ↦ done res s
                    | none ↦ and_then split (appex_remember hash l r appexid)
                  ]
        ]
