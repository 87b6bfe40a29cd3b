-- ===== src/Op/Call.antt =====
-- The public calls of src/bddop.c around the recursions: the checks of the operands, the start with an
-- empty reference stack, the second attempt after a reordering, and the resizing of the caches.
pub mod Returns
pub mod Quantify
use mo_to_buddy.Prelude.{
  [], ℕ, ◌+◌, ◌*◌, ◌/◌, ◌-◌, Bool, true, false, not, ◌&&◌, Option, none, some, ltb, leb, ◌==◌,
  if◌then◌else◌,
}
use mo_to_buddy.Cache.{resize}
use mo_to_buddy.Kernel.{Kernel, Caches, done, longjmp, abort, out_of_fuel, Cmd, invalid, low}
use mo_to_buddy.Kernel.Makenode.{makenode}
use mo_to_buddy.Kernel.Settings.{Answer, value, err_running, err_ill_bdd, err_op}
use mo_to_buddy.Op.{Op, not_rec, apply_rec}
use mo_to_buddy.Op.Ite.{ite_rec}

-- CHECKa; after an error answer the C function returns `bddfalse`.
unfoldable pub checka : ℕ → Cmd Answer → Cmd Answer
checka r rest s =
    if not s.running
    then done err_running s
    else if leb s.nodesize r
    then done err_ill_bdd s
    else if leb 2 r && (low s r == invalid)
    then done err_ill_bdd s
    else rest s

-- INITREF
abbrev pub initref : Kernel → Kernel
initref s = record s { refstack = [] }

-- `bdd_disable_reorder` and `bdd_enable_reorder`
abbrev pub with_disabled : Bool → Kernel → Kernel
with_disabled b s = record s { reorder = record s.reorder { disabled = b } }

-- `prime_gte` is `bdd_prime_gte`, `cacheratio` the variable of that name.
module _ (prime_gte : ℕ → ℕ) (cacheratio : ℕ) where
  unfoldable pub operator_noderesize : Kernel → Caches
  operator_noderesize s =
      let c = s.caches in
      let size = prime_gte (s.nodesize / cacheratio) in
      if ltb 0 cacheratio
      then record {
        apply = resize c.apply size;
        ite = resize c.ite size;
        quant = resize c.quant size;
        appex = resize c.appex size;
        replace = resize c.replace size;
        misc = resize c.misc size;
        mtbdd_apply = resize c.mtbdd_apply size;
        mtbdd_ite = resize c.mtbdd_ite size;
        mtbdd_operation = resize c.mtbdd_operation size;
      }
      else c

  -- `checkresize` while the package holds plain BDDs.
  unfoldable pub checkresize : Kernel → Kernel
  unfolding operator_noderesize
  checkresize s = record s {
    caches = if s.resized then operator_noderesize s else s.caches;
    resized = false;
  }

  -- `reorder_auto` is `bdd_reorder_auto`, and `reorder_gain` is `bdd_reorder_gain`.
  module _ (reorder_auto : Kernel → Kernel) (reorder_gain : Kernel → ℕ) where
    unfoldable pub checkreorder : Kernel → Kernel
    checkreorder s =
        let t = reorder_auto s in
        let next = 2 * (t.nodesize - t.freenum) in
        let gain = reorder_gain t in
        record t {
          usednodes_nextreorder = if ltb gain 20 then next + next * (20 - gain) / 20 else next;
        }

    -- The attempt after a reordering.
    unfoldable pub again : Cmd ℕ → Cmd Answer
    unfolding checkreorder checkresize
    again body s = elim (body (with_disabled true (initref s))) [
      | done r s' ↦ done (value r) (checkresize (with_disabled false s'))
      | longjmp s' ↦ done (value 0) (checkresize (checkreorder s'))
      | abort ↦ abort
      | out_of_fuel ↦ out_of_fuel
    ]

    -- The block behind `setjmp`.
    unfoldable pub guarded : Cmd ℕ → Cmd Answer
    unfolding again checkreorder checkresize
    guarded body s = elim (body (initref s)) [
      | done r s' ↦ done (value r) (checkresize s')
      | longjmp s' ↦ again body (checkreorder s')
      | abort ↦ abort
      | out_of_fuel ↦ out_of_fuel
    ]

    module _ (prime_lte : ℕ → ℕ) (fuel : ℕ) where
      unfoldable pub bdd_not : ℕ → Cmd Answer
      unfolding checka guarded
      bdd_not r = checka r (guarded (not_rec (makenode prime_lte) fuel r))

      -- `none` is an operator out of range.
      unfoldable pub bdd_apply : ℕ → ℕ → Option Op → Cmd Answer
      unfolding checka guarded
      bdd_apply l r none = checka l (checka r (done err_op))
      bdd_apply l r (some op) =
          checka l (checka r (guarded (apply_rec (makenode prime_lte) op fuel l r)))

      unfoldable pub bdd_ite : ℕ → ℕ → ℕ → Cmd Answer
      unfolding checka guarded
      bdd_ite f g h =
          let body = ite_rec (makenode prime_lte) (not_rec (makenode prime_lte) fuel) fuel f g h in
          checka f (checka g (checka h (guarded body)))
