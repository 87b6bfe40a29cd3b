-- ===== src/Op/Call/Quantify.antt =====
-- The public quantifications of src/bddop.c, which fill `quantvarset` before the recursion. What the
-- package keeps of variable sets is passed along.
use mo_to_buddy.Prelude.{ℕ, ◌+◌, ◌*◌, ◌%◌, true, false, ltb, if◌then◌else◌}
use mo_to_buddy.Kernel.{Kernel, done, longjmp, abort, out_of_fuel, Cmd, and_then}
use mo_to_buddy.Kernel.Makenode.{makenode}
use mo_to_buddy.Kernel.Settings.{
  Answer, value, err_var, err_range, err_running, err_nodes, err_ill_bdd, err_size, err_op, err_set,
}
use mo_to_buddy.Op.{apply_rec}
use mo_to_buddy.Op.Quantify.{quant_rec}
use mo_to_buddy.Op.Varset.{Varset, filled, err_varset, unfinished, varset2vartable, in_varset}
use mo_to_buddy.Op.Ready.{Quantifier, exist, forall, unique, tag, merger}
use mo_to_buddy.Op.Call.{checka, initref, with_disabled, checkresize, checkreorder}

-- A call returns at the first check that fails.
abbrev pub onward : Varset → Cmd (Answer × Varset) → Answer → Cmd (Answer × Varset)
onward t rest (value r) s = rest s
onward t rest err_var s = done (err_var, t) s
onward t rest err_range s = done (err_range, t) s
onward t rest err_running s = done (err_running, t) s
onward t rest err_nodes s = done (err_nodes, t) s
onward t rest err_ill_bdd s = done (err_ill_bdd, t) s
onward t rest err_size s = done (err_size, t) s
onward t rest err_op s = done (err_op, t) s
onward t rest err_set s = done (err_set, t) s

unfoldable pub checked : ℕ → Varset → Cmd (Answer × Varset) → Cmd (Answer × Varset)
unfolding checka
checked r t rest s = and_then (checka r (done (value r)) s) (onward t rest)

-- `(var << 3) | tag` as an `int`, by its pattern of 32 bits.
abbrev pub quantid : Quantifier → ℕ → ℕ
quantid q var = var * 8 % 4294967296 + tag q

module _ (prime_gte : ℕ → ℕ) (ratio : ℕ) (reorder_auto : Kernel → Kernel) (gain : Kernel → ℕ)
    (prime_lte : ℕ → ℕ) (fuel : ℕ) where
  -- The recursion at `quantid` and `applyop`.
  abbrev pub quantification : Quantifier → ℕ → ℕ → Varset → Cmd ℕ
  quantification q r var t =
      quant_rec (makenode prime_lte) (apply_rec (makenode prime_lte) (merger q) fuel) (in_varset t)
        t.last (quantid q var) fuel r

  -- The attempt after a reordering.
  unfoldable pub quantify_again : Quantifier → ℕ → ℕ → Varset → Cmd (Answer × Varset)
  unfolding varset2vartable checkresize checkreorder
  quantify_again q r var t s = elim (varset2vartable fuel s var t) [
    | err_varset ↦ done (err_set, t) s
    | unfinished ↦ out_of_fuel
    | filled t' ↦ elim (quantification q r var t' (with_disabled true (initref s))) [
      | done res s' ↦ done (value res, t') (checkresize prime_gte ratio (with_disabled false s'))
      | longjmp s' ↦
          done (value 0, t')
            (checkresize prime_gte ratio (checkreorder prime_gte ratio reorder_auto gain s'))
      | abort ↦ abort
      | out_of_fuel ↦ out_of_fuel
    ]
  ]

  -- The block behind `setjmp`.
  unfoldable pub quantify : Quantifier → ℕ → ℕ → Varset → Cmd (Answer × Varset)
  unfolding varset2vartable checkresize checkreorder quantify_again
  quantify q r var t s = elim (varset2vartable fuel s var t) [
    | err_varset ↦ done (err_set, t) s
    | unfinished ↦ out_of_fuel
    | filled t' ↦ elim (quantification q r var t' (initref s)) [
      | done res s' ↦ done (value res, t') (checkresize prime_gte ratio s')
      | longjmp s' ↦ quantify_again q r var t' (checkreorder prime_gte ratio reorder_auto gain s')
      | abort ↦ abort
      | out_of_fuel ↦ out_of_fuel
    ]
  ]

  -- The checks and the empty set, before the block.
  unfoldable pub quantify_call : Quantifier → ℕ → ℕ → Varset → Cmd (Answer × Varset)
  unfolding checked quantify
  quantify_call q r var t =
      checked r t
        (checked var t (λ s. if ltb var 2 then done (value r, t) s else quantify q r var t s))

  unfoldable pub bdd_exist : ℕ → ℕ → Varset → Cmd (Answer × Varset)
  unfolding quantify_call
  bdd_exist = quantify_call exist

  unfoldable pub bdd_forall : ℕ → ℕ → Varset → Cmd (Answer × Varset)
  unfolding quantify_call
  bdd_forall = quantify_call forall

  unfoldable pub bdd_unique : ℕ → ℕ → Varset → Cmd (Answer × Varset)
  unfolding quantify_call
  bdd_unique = quantify_call unique
