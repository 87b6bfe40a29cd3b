-- ===== src/Op/Satone.antt =====
-- Satisfying assignments in src/bddop.c: the recursions of `bdd_satone`, `bdd_satoneset` and
-- `bdd_fullsatone`. Each node that they build stays on the reference stack. The fuel bounds the depth
-- of the recursion and the number of levels passed over.
use mo_to_buddy.Prelude.{ℕ, zero, suc, ◌+◌, ◌-◌, ◌&&◌, ltb, ◌==◌, if◌then◌else◌}
use mo_to_buddy.Kernel.{done, out_of_fuel, Cmd, ◌>>=◌, level, low, high}
use mo_to_buddy.Kernel.Refs.{pushref}

module _ (make : ℕ → ℕ → ℕ → Cmd ℕ) where
  -- A node whose other branch is the constant false.
  abbrev pub with_low : ℕ → ℕ → Cmd ℕ
  with_low l res = make l res 0 >>= pushref

  abbrev pub with_high : ℕ → ℕ → Cmd ℕ
  with_high l res = make l 0 res >>= pushref

  unfoldable pub satone_rec : ℕ → ℕ → Cmd ℕ
  unfolding pushref
  satone_rec zero r s = out_of_fuel
  satone_rec (suc fuel) r s =
      let up : Cmd ℕ = satone_rec fuel (high s r) >>= λ res t. with_high (level t r) res t in
      let down : Cmd ℕ = satone_rec fuel (low s r) >>= λ res t. with_low (level t r) res t in
      if ltb r 2 then done r s else if low s r == 0 then up s else down s

  -- `pol` is `satPolarity`.
  unfoldable pub satoneset_rec : ℕ → ℕ → ℕ → ℕ → Cmd ℕ
  unfolding pushref
  satoneset_rec pol zero r var s = out_of_fuel
  satoneset_rec pol (suc fuel) r var s =
      let rest = if level s r == level s var then high s var else var in
      let up : Cmd ℕ =
        satoneset_rec pol fuel (high s r) rest >>= λ res t. with_high (level t r) res t in
      let down : Cmd ℕ =
        satoneset_rec pol fuel (low s r) rest >>= λ res t. with_low (level t r) res t in
      let beside : Cmd ℕ = satoneset_rec pol fuel r (high s var) >>= λ res t.
      if pol == 1 then with_high (level t var) res t else with_low (level t var) res t in
      if ltb r 2 && ltb var 2
      then done r s
      else if ltb (level s var) (level s r)
      then beside s
      else if low s r == 0
      then up s
      else down s

  -- `for (v=from-1 ; v>to ; v--)`, which has `rounds` levels to fill, the highest first.
  unfoldable pub fill_levels : ℕ → ℕ → ℕ → Cmd ℕ
  unfolding pushref
  fill_levels zero to res s = done res s
  fill_levels (suc rounds) to res s =
      let rest : Cmd ℕ = with_low (to + rounds) res >>= fill_levels rounds to in rest s

  unfoldable pub fullsatone_rec : ℕ → ℕ → Cmd ℕ
  unfolding pushref fill_levels
  fullsatone_rec zero r s = out_of_fuel
  fullsatone_rec (suc fuel) r s =
      let down : Cmd ℕ = fullsatone_rec fuel (low s r) >>= λ res t.
      (fill_levels (level t (low t r) - level t r - 1) (level t r + 1) res >>= λ res' t'.
      with_low (level t' r) res' t')
        t in
      let up : Cmd ℕ = fullsatone_rec fuel (high s r) >>= λ res t.
      (fill_levels (level t (high t r) - level t r - 1) (level t r + 1) res >>= λ res' t'.
      with_high (level t' r) res' t')
        t in
      if ltb r 2 then done r s else if low s r == 0 then up s else down s

  -- The loop of `bdd_fullsatone` over the levels above the BDD.
  unfoldable pub fullsatone : ℕ → ℕ → Cmd ℕ
  unfolding fullsatone_rec fill_levels
  fullsatone fuel r = fullsatone_rec fuel r >>= λ res t. fill_levels (level t r) 0 res t
