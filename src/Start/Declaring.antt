-- ===== src/Start/Declaring.antt =====
-- The loop of `bdd_setvarnum` in src/kernel.c ends, with all variables or with an error.
use mo_to_buddy.Prelude.{
  [], ℕ, zero, suc, ◌+◌, ◌≤◌, ◌<◌, ◌≡◌, ◌≢◌, refl, sym, ◌∙◌, ap, subst, ◌⊎◌, inl, inr, Bool, true,
  false, ◌∷◌, ◌==◌, length, arith, Bool-cases,
}
use mo_to_buddy.Terminal.{maxlevel}
use mo_to_buddy.Kernel.{Kernel, done}
use mo_to_buddy.Kernel.Protected.{Protected, constant, stacked, Live-Keeps}
use mo_to_buddy.Kernel.Refs.{popref}
use mo_to_buddy.Kernel.Makenode.{makenode}
use mo_to_buddy.Kernel.Makenode.Resize.{FindsPrimes}
use mo_to_buddy.Kernel.Makenode.Build.{Fitting}
use mo_to_buddy.Kernel.Makenode.Made.{Made, IsNode, makenode-Made}
use mo_to_buddy.Op.Stack.{restack, push, push_step}
use mo_to_buddy.Start.{make_variable, turn, declare, enter_nodes, add_variable}
use mo_to_buddy.Start.Growing.{
  Holds, Growing, no_jump, Growing-Made, Growing-restack, Growing-push, Growing-deeper, Growing-add,
}

-- The constants fit below any level.
constants-Fitting :
    {top : ℕ} (s : Kernel) (l a b : ℕ) → l < top → a < 2 → b < 2 → Fitting top l a b s
constants-Fitting s l a b lt ha hb = record {
  below = lt;
  low_ok = inl ha;
  high_ok = inl hb;
  low_beyond = inl ha;
  high_beyond = inl hb;
}

IsNode-Holds : (s : Kernel) (l a b n : ℕ) → a ≢ b → IsNode l a b s n → Holds s l n a b
IsNode-Holds s l a b n d (inl (e, same)) = absurd (d e)
IsNode-Holds s l a b n d (inr (ne, live, shape)) = (live, shape)

-- A node stays that was pushed before the other one was made.
Holds-Made :
    {top l a b res : ℕ} (s s' : Kernel) (n l' a' b' : ℕ)
    → Made top (push n s) s' l a b res
    → Holds s l' n a' b'
    → Holds s' l' n a' b'
Holds-Made s s' n l' a' b' m (live, (e1, e2, e3)) =
    let p : Protected (push n s) n = stacked (inl refl) in
    let f = m.keeps.node n p live.0 in
    (Live-Keeps m.keeps n p live, (f.level ∙ e1, f.low ∙ e2, f.high ∙ e3))

-- Without an error both nodes are there.
nodes-Made :
    {top : ℕ} (s s1 s2 : Kernel) (v a b : ℕ)
    → Made top s s1 v 0 1 a
    → Made top (push a s1) s2 v 1 0 b
    → s2.errorcond ≡ 0
    → Holds s2 v a 0 1 × Holds s2 v b 1 0
nodes-Made s s1 s2 v a b m1 m2 z = elim m1.outcome [
  | inl (bad, e) ↦ absurd (bad (m2.error z))
  | inr x ↦ elim m2.outcome [
    | inl (bad, e) ↦ absurd (bad z)
    | inr y ↦ (
      Holds-Made s1 s2 a v 0 1 m2 (IsNode-Holds s1 v 0 1 a (λ e. absurd (omega arith)) x),
      IsNode-Holds s2 v 1 0 b (λ e. absurd (omega arith)) y,
    )
  ]
]

pop_one : (a : ℕ) (s : Kernel) → s.refstack ≡ a ∷ [] → popref 1 s ≡ done tt (restack s [])
unfolding popref
pop_one a s e = rw e refl

-- What the loop's body leaves before it looks for an error.
record Variable (slots : ℕ) (s s' : Kernel) (a b : ℕ) : Type 0 where
  growing : Growing (suc s'.varnum) slots s'
  empty : s'.refstack ≡ []
  same : s'.varnum ≡ s.varnum
  nodes : s'.errorcond ≡ 0 → Holds s' s'.varnum a 0 1 × Holds s' s'.varnum b 1 0

-- The state of the loop at the next variable.
pub record Turn (slots : ℕ) (s : Kernel) : Type 0 where
  pub growing : Growing s.varnum slots s
  pub empty : s.refstack ≡ []
  pub clear : s.errorcond ≡ 0

module _ (prime_lte : ℕ → ℕ) (primes : FindsPrimes prime_lte) (slots : ℕ)
    (some_slots : 0 < slots) where
  make_variable_run :
      (s s1 s2 : Kernel) (a b : ℕ)
      → makenode prime_lte s.varnum 0 1 s ≡ done a s1
      → length s1.refstack < s1.refslots
      → makenode prime_lte s.varnum 1 0 (push a s1) ≡ done b s2
      → s2.refstack ≡ a ∷ []
      → make_variable prime_lte s ≡ done (a, b) (restack s2 [])
  unfolding make_variable
  make_variable_run s s1 s2 a b e1 room e2 one =
      rw (e1, push_step a s1 room, e2, pop_one a s2 one) refl

  make_variable-Variable :
      (s : Kernel)
      → Growing (suc s.varnum) slots s
      → s.refstack ≡ []
      → (a : ℕ) × (b : ℕ) × (s' : Kernel) × (make_variable prime_lte s ≡ done (a, b) s')
        × Variable slots s s' a b
  make_variable-Variable s g empty =
      let lt : s.varnum < suc s.varnum = omega arith in
      let v = s.varnum in
      let (a, s1, e1, m1) =
        makenode-Made prime_lte primes v 0 1 g.well g.limits (no_jump g)
          (constants-Fitting s v 0 1 lt (omega arith) (omega arith)) (constant (omega arith))
          (constant (omega arith)) in
      let g1 = Growing-Made g m1 in
      let none : s1.refstack ≡ [] = m1.keeps.stack ∙ empty in
      let s1' = push a s1 in
      let g1' : Growing (suc v) slots s1' = Growing-push s1 a g1 m1.ok in
      let (b, s2, e2, m2) =
        makenode-Made prime_lte primes v 1 0 g1'.well g1'.limits (no_jump g1')
          (constants-Fitting s1' v 1 0 lt (omega arith) (omega arith)) (constant (omega arith))
          (constant (omega arith)) in
      let g2 = Growing-Made g1' m2 in
      let one : s2.refstack ≡ a ∷ [] = m2.keeps.stack ∙ ap (λ xs. a ∷ xs) none in
      let same : s2.varnum ≡ v = m2.keeps.varnum ∙ m1.keeps.varnum in
      let t = restack s2 [] in
      let room : length s1.refstack < s1.refslots = rw none (omega (arith, g1.room)) in
      (
        a,
        b,
        restack s2 [],
        make_variable_run s s1 s2 a b e1 room e2 one,
        record {
          growing =
              subst (λ k. Growing (suc k) slots t) (sym same)
                (Growing-restack s2 [] g2 (λ n i. absurd i));
          empty = refl;
          same = same;
          nodes = λ z.
              subst (λ k. Holds t k a 0 1 × Holds t k b 1 0) (sym same)
                (nodes-Made s s1 s2 v a b m1 m2 z);
        },
      )

  turn_made :
      (count : ℕ) (s s' : Kernel) (a b : ℕ)
      → make_variable prime_lte s ≡ done (a, b) s'
      → (s'.errorcond == 0) ≡ true
      → declare prime_lte (suc count) s
        ≡ declare prime_lte count (add_variable a b (enter_nodes a b s'))
  unfolding declare turn
  turn_made count s s' a b e fine = rw (e, turn, fine) refl

  turn_failed :
      (count : ℕ) (s s' : Kernel) (a b : ℕ)
      → make_variable prime_lte s ≡ done (a, b) s'
      → (s'.errorcond == 0) ≡ false
      → declare prime_lte (suc count) s ≡ done false (enter_nodes a b s')
  unfolding declare turn
  turn_failed count s s' a b e bad = rw (e, turn, bad) refl

  -- The loop returns: false after an error, and otherwise with all variables that it was to make.
  pub declare-Turn :
      (count : ℕ) (s : Kernel)
      → Turn slots s
      → s.varnum + count ≤ maxlevel
      → (fine : Bool) × (s' : Kernel) × (declare prime_lte count s ≡ done fine s')
        × (((fine ≡ false) × (s'.errorcond ≢ 0))
            ⊎ ((fine ≡ true) × Turn slots s' × (s'.varnum ≡ s.varnum + count)))
  unfolding declare
  declare-Turn zero s t le = (true, s, refl, inr (refl, t, omega arith))
  declare-Turn (suc count) s t le =
      let (a, b, s1, e, x) =
        make_variable-Variable s (Growing-deeper s t.growing (omega arith)) t.empty in
      elim (Bool-cases (s1.errorcond == 0)) [
        | inr bad ↦
            (false, enter_nodes a b s1, turn_failed count s s1 a b e bad, inl (refl, ground arith))
        | inl fine ↦
            let next = add_variable a b (enter_nodes a b s1) in
            let (ha, hb) = x.nodes (ground arith) in
            let turn : Turn slots next = record {
              growing = Growing-add s1 a b x.growing ha hb;
              empty = x.empty;
              clear = ground arith;
            } in
            let (res, s', run, out) = declare-Turn count next turn (omega (arith, x.same)) in
            (
              res,
              s',
              turn_made count s s1 a b e fine ∙ run,
              elim out [
                | inl bad ↦ inl bad
                | inr (f, u, n) ↦ inr (f, u, n ∙ omega (arith, x.same))
              ],
            )
      ]
