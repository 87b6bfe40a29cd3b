-- ===== src/Bvec.antt =====
-- The boolean vectors of src/bvec.c: numbers whose bits are BDDs, the least significant one first.
-- The BDD package is an interface: what the vectors call of it is a record of commands.
pub mod Laws
pub mod Arithmetic
pub mod Order
pub mod Constants
use mo_to_buddy.Prelude.{
  [], ℕ, zero, suc, ◌+◌, ◌%◌, ◌/◌, ◌*◌, Bool, true, false, not, ◌||◌, List, ◌∷◌, ◌++◌, length, drop,
  ltb, ◌==◌, if◌then◌else◌,
}
use mo_to_buddy.Kernel.{done, out_of_fuel, Cmd, and_then, ◌>>=◌}
use mo_to_buddy.Op.{Op, and, or, xor, less, biimp}

-- `bdd_apply`, `bdd_ite`, `bdd_not`, `bdd_addref` and `bdd_delref`.
pub record Package : Type 0 where
  pub apply : Op → ℕ → ℕ → Cmd ℕ
  pub ite : ℕ → ℕ → ℕ → Cmd ℕ
  pub negation : ℕ → Cmd ℕ
  pub addref : ℕ → Cmd ℕ
  pub delref : ℕ → Cmd ℕ

-- `bvec_build`
abbrev pub bvec_build : ℕ → Bool → List ℕ
bvec_build zero fill = []
bvec_build (suc bitnum) fill = (if fill then 1 else 0) ∷ bvec_build bitnum fill

-- `bvec_con`
unfoldable pub con : ℕ → ℕ → List ℕ
con zero v = []
con (suc bitnum) v = v % 2 ∷ con bitnum (v / 2)

-- `bvec_isconst`
abbrev pub isconst : List ℕ → Bool
isconst [] = true
isconst (b ∷ bs) = if ltb b 2 then isconst bs else false

-- The loop of `bvec_val` from the most significant bit; any bit that is no constant makes the
-- result 0.
unfoldable pub val_loop : List ℕ → ℕ → ℕ
val_loop [] v = v
val_loop (b ∷ bs) v =
    if b == 1 then val_loop bs (v * 2 + 1) else if b == 0 then val_loop bs (v * 2) else 0

abbrev pub reversed : List ℕ → List ℕ → List ℕ
reversed [] acc = acc
reversed (b ∷ bs) acc = reversed bs (b ∷ acc)

unfoldable pub val : List ℕ → ℕ
unfolding val_loop
val bs = val_loop (reversed bs []) 0

-- The first `n` bits.
abbrev pub first : ℕ → List ℕ → List ℕ
first zero bs = []
first (suc n) [] = []
first (suc n) (b ∷ bs) = b ∷ first n bs

abbrev pub copies : ℕ → ℕ → List ℕ
copies zero c = []
copies (suc n) c = c ∷ copies n c

module _ (p : Package) where
  -- `bdd_addref( bdd_apply(l, r, op) )`
  abbrev pub counted : Op → ℕ → ℕ → Cmd ℕ
  counted op l r = p.apply op l r >>= p.addref

  -- `bvec_addref`, and the copies in `bvec_copy`
  unfoldable pub addref_all : List ℕ → Cmd (List ℕ)
  addref_all [] = done []
  addref_all (b ∷ bs) = do b' ← p.addref b; bs' ← addref_all bs; λ s. done (b' ∷ bs') s

  -- `bvec_delref`, which is also what `bvec_free` does to the BDDs
  unfoldable pub delref_all : List ℕ → Cmd (Unit {0})
  delref_all [] = done tt
  delref_all (b ∷ bs) = do _ ← p.delref b; delref_all bs

  -- `bvec_coerce`
  unfoldable pub coerce : ℕ → List ℕ → Cmd (List ℕ)
  coerce zero v = done []
  coerce (suc bitnum) [] = done (bvec_build (suc bitnum) false)
  coerce (suc bitnum) (b ∷ bs) = do b' ← p.addref b; bs' ← coerce bitnum bs; λ s. done (b' ∷ bs') s

  -- Two operators in turn, the first result released after the second: it is the left operand of the
  -- second operator, or the right one.
  unfoldable pub after : Op → Op → ℕ → ℕ → ℕ → Cmd ℕ
  after op1 op2 l r x = do
    tmp1 ← counted op1 l r
    tmp2 ← counted op2 tmp1 x
    _ ← p.delref tmp1
    λ s. done tmp2 s

  unfoldable pub before : Op → Op → ℕ → ℕ → ℕ → Cmd ℕ
  before op1 op2 x l r = do
    tmp1 ← counted op1 l r
    tmp2 ← counted op2 x tmp1
    _ ← p.delref tmp1
    λ s. done tmp2 s

  -- The body of the loop of `bvec_add`: the bit of the result and the next carry.
  unfoldable pub add_step : ℕ → ℕ → ℕ → Cmd (ℕ × ℕ)
  unfolding after before
  add_step l r c = do
    bit ← after xor xor l r c
    passed ← before or and c l r
    carry ← after and or l r passed
    _ ← p.delref passed
    _ ← p.delref c
    λ s. done (bit, carry) s

  -- The body of the loop of `bvec_sub`.
  unfoldable pub sub_step : ℕ → ℕ → ℕ → Cmd (ℕ × ℕ)
  unfolding after before
  sub_step l r c = do
    bit ← after xor xor l r c
    short ← before or less l r c
    all ← after and and l r c
    borrow ← counted or all short
    _ ← p.delref short
    _ ← p.delref all
    _ ← p.delref c
    λ s. done (bit, borrow) s

  -- The loop over the bits, with the carry.
  unfoldable pub ripple : (ℕ → ℕ → ℕ → Cmd (ℕ × ℕ)) → List ℕ → List ℕ → ℕ → Cmd (List ℕ × ℕ)
  ripple step [] rs c = done ([], c)
  ripple step (l ∷ ls) [] c = done ([], c)
  ripple step (l ∷ ls) (r ∷ rs) c = do
    now ← step l r c
    rest ← ripple step ls rs now.1
    λ s. done (now.0 ∷ rest.0, rest.1) s

  -- After an error, and for empty vectors, the result is the empty vector.
  unfoldable pub arithmetic : (ℕ → ℕ → ℕ → Cmd (ℕ × ℕ)) → List ℕ → List ℕ → Cmd (List ℕ)
  unfolding ripple
  arithmetic step l r s =
      if (length l == 0) || (length r == 0)
      then done [] s
      else if not (length l == length r)
      then done [] s
      else and_then (ripple step l r 0 s) (λ out. do _ ← p.delref out.1; λ t. done out.0 t)

  unfoldable pub add : List ℕ → List ℕ → Cmd (List ℕ)
  unfolding arithmetic add_step
  add = arithmetic add_step

  unfoldable pub sub : List ℕ → List ℕ → Cmd (List ℕ)
  unfolding arithmetic sub_step
  sub = arithmetic sub_step

  -- The body of the loops of `bvec_lth` and `bvec_lte`.
  unfoldable pub order_step : ℕ → ℕ → ℕ → Cmd ℕ
  unfolding delref_all
  order_step l r q = do
    tmp1 ← counted less l r
    tmp2 ← counted biimp l r
    tmp3 ← counted and tmp2 q
    tmp4 ← counted or tmp1 tmp3
    _ ← delref_all (tmp1 ∷ tmp2 ∷ tmp3 ∷ q ∷ [])
    λ s. done tmp4 s

  -- The body of the loop of `bvec_equ`.
  unfoldable pub equ_step : ℕ → ℕ → ℕ → Cmd ℕ
  equ_step l r q = do
    tmp1 ← counted biimp l r
    tmp2 ← counted and tmp1 q
    _ ← p.delref tmp1
    _ ← p.delref q
    λ s. done tmp2 s

  unfoldable pub fold : (ℕ → ℕ → ℕ → Cmd ℕ) → List ℕ → List ℕ → ℕ → Cmd ℕ
  fold step [] rs q = done q
  fold step (l ∷ ls) [] q = done q
  fold step (l ∷ ls) (r ∷ rs) q = do q' ← step l r q; fold step ls rs q'

  -- `start` is what the comparison is of no bits, and the answer where the sizes differ.
  unfoldable pub comparison : (ℕ → ℕ → ℕ → Cmd ℕ) → ℕ → List ℕ → List ℕ → Cmd ℕ
  unfolding fold
  comparison step start l r s =
      if (length l == 0) || (length r == 0)
      then done 0 s
      else if not (length l == length r)
      then done start s
      else and_then (fold step l r start s) p.delref

  unfoldable pub lth : List ℕ → List ℕ → Cmd ℕ
  unfolding comparison order_step
  lth = comparison order_step 0

  unfoldable pub lte : List ℕ → List ℕ → Cmd ℕ
  unfolding comparison order_step
  lte = comparison order_step 1

  unfoldable pub equ : List ℕ → List ℕ → Cmd ℕ
  unfolding comparison equ_step
  equ = comparison equ_step 1

  -- The comparisons that negate another.
  unfoldable pub denied : Cmd ℕ → Cmd ℕ
  denied test = do
    answer ← test
    tmp ← p.addref answer
    q ← p.negation tmp
    _ ← p.delref tmp
    λ s. done q s

  unfoldable pub gth : List ℕ → List ℕ → Cmd ℕ
  unfolding denied lte
  gth l r = denied (lte l r)

  unfoldable pub gte : List ℕ → List ℕ → Cmd ℕ
  unfolding denied lth
  gte l r = denied (lth l r)

  unfoldable pub neq : List ℕ → List ℕ → Cmd ℕ
  unfolding denied equ
  neq l r = denied (equ l r)

  -- The loop of `bvec_ite`.
  unfoldable pub ite_bits : ℕ → List ℕ → List ℕ → Cmd (List ℕ)
  ite_bits a [] cs = done []
  ite_bits a (b ∷ bs) [] = done []
  ite_bits a (b ∷ bs) (c ∷ cs) = do
    r ← p.ite a b c
    r' ← p.addref r
    rs ← ite_bits a bs cs
    λ s. done (r' ∷ rs) s

  unfoldable pub ite : ℕ → List ℕ → List ℕ → Cmd (List ℕ)
  unfolding ite_bits
  ite a b c s = if not (length b == length c) then done [] s else ite_bits a b c s

  -- `bvec_shlfixed` and `bvec_shrfixed` for a shift that is not negative.
  unfoldable pub shlfixed : List ℕ → ℕ → ℕ → Cmd (List ℕ)
  unfolding addref_all
  shlfixed e pos c = addref_all (first (length e) (copies pos c ++ e))

  unfoldable pub shrfixed : List ℕ → ℕ → ℕ → Cmd (List ℕ)
  unfolding addref_all
  shrfixed e pos c = do
    high ← addref_all (first (length e) (copies pos c))
    low ← addref_all (drop pos e)
    λ s. done (low ++ high) s

  -- `bvec_mulfixed`; the fuel bounds the number of bits of the factor. The shifted copy of the vector
  -- is made without new references, and is released at the end.
  unfoldable pub mulfixed : ℕ → List ℕ → ℕ → Cmd (List ℕ)
  unfolding add delref_all
  mulfixed zero e c s = out_of_fuel
  mulfixed (suc fuel) e c s =
      let next = first (length e) (0 ∷ e) in
      let rest = mulfixed fuel next (c / 2) s in
      if length e == 0
      then done [] s
      else if c == 0
      then done (bvec_build (length e) false) s
      else and_then rest (λ multiple. do
        res ← λ t.
            if c % 2 == 1
            then (do sum ← add e multiple; _ ← delref_all multiple; λ u. done sum u) t
            else done multiple t
        _ ← delref_all next
        λ t. done res t)
