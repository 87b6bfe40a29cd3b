-- ===== src/Bvec/Order.antt =====
-- The comparisons of src/bvec.c compare numbers.
use mo_to_buddy.Prelude.{
  ℕ, ◌+◌, ◌*◌, ◌<◌, ◌≡◌, refl, ◌∙◌, ap, inl, inr, Bool, true, false, not, ◌&&◌, ◌||◌, List, [], ◌∷◌,
  length, if◌then◌else◌, arith, ◌==◌, ltb, leb,
}
use mo_to_buddy.Tree.{Assignment}
use mo_to_buddy.Kernel.{Kernel, done, Cmd, and_then, ◌>>=◌}
use mo_to_buddy.Op.{and, or, less, biimp}
use mo_to_buddy.Op.Ready.{op_bool}
use mo_to_buddy.Session.{Ref}
use mo_to_buddy.Bvec.{Package, delref_all, fold, comparison, order_step, equ_step, lth, lte, equ}
use mo_to_buddy.Bvec.Laws.{In, Lawful, Fn}
use mo_to_buddy.Bvec.Arithmetic.{digit, number, truths, bdds, AllIn, length-bdds}

abbrev order_bit : Fn → Fn → Fn → Fn
order_bit l r q ρ =
    op_bool or (op_bool less (l ρ) (r ρ)) (op_bool and (op_bool biimp (l ρ) (r ρ)) (q ρ))

abbrev equ_bit : Fn → Fn → Fn → Fn
equ_bit l r q ρ = op_bool and (op_bool biimp (l ρ) (r ρ)) (q ρ)

-- The answer after all bits.
abbrev answer : (Fn → Fn → Fn → Fn) → List Ref → List Ref → Fn → Fn
answer bit_of [] rs q = q
answer bit_of (l ∷ ls) [] q = q
answer bit_of (l ∷ ls) (r ∷ rs) q = answer bit_of ls rs (bit_of l.truth r.truth q)

-- One bit more below two numbers that were compared.
order_digit :
    (a b : Bool) (m n : ℕ) (q out : Bool)
    → out ≡ (ltb m n || ((m == n) && ((not a && b) || ((if a then b else not b) && q))))
    → out ≡ (ltb (digit a + 2 * m) (digit b + 2 * n) || ((digit a + 2 * m == digit b + 2 * n) && q))
order_digit true true m n q out e = ground (arith, e)
order_digit true false m n q out e = ground (arith, e)
order_digit false true m n q out e = ground (arith, e)
order_digit false false m n q out e = ground (arith, e)

equ_digit :
    (a b : Bool) (m n : ℕ) (q out : Bool)
    → out ≡ ((m == n) && ((if a then b else not b) && q))
    → out ≡ ((digit a + 2 * m == digit b + 2 * n) && q)
equ_digit true true m n q out e = ground (arith, e)
equ_digit true false m n q out e = ground (arith, e)
equ_digit false true m n q out e = ground (arith, e)
equ_digit false false m n q out e = ground (arith, e)

-- The highest bit that differs decides.
answer-order :
    (ls rs : List Ref) (q : Fn) (ρ : Assignment)
    → length ls ≡ length rs
    → answer order_bit ls rs q ρ ≡ (
        ltb (number (truths ls) ρ) (number (truths rs) ρ)
        || ((number (truths ls) ρ == number (truths rs) ρ) && q ρ))
answer-order [] [] q ρ e = ground arith
answer-order [] (r ∷ rs) q ρ e = absurd (omega arith)
answer-order (l ∷ ls) [] q ρ e = absurd (omega arith)
answer-order (l ∷ ls) (r ∷ rs) q ρ e =
    let rest = answer-order ls rs (order_bit l.truth r.truth q) ρ (omega arith) in
    order_digit (l.truth ρ) (r.truth ρ) (number (truths ls) ρ) (number (truths rs) ρ) (q ρ)
      (answer order_bit ls rs (order_bit l.truth r.truth q) ρ) rest

answer-equ :
    (ls rs : List Ref) (q : Fn) (ρ : Assignment)
    → length ls ≡ length rs
    → answer equ_bit ls rs q ρ ≡ ((number (truths ls) ρ == number (truths rs) ρ) && q ρ)
answer-equ [] [] q ρ e = ground arith
answer-equ [] (r ∷ rs) q ρ e = absurd (omega arith)
answer-equ (l ∷ ls) [] q ρ e = absurd (omega arith)
answer-equ (l ∷ ls) (r ∷ rs) q ρ e =
    let rest = answer-equ ls rs (equ_bit l.truth r.truth q) ρ (omega arith) in
    equ_digit (l.truth ρ) (r.truth ρ) (number (truths ls) ρ) (number (truths rs) ρ) (q ρ)
      (answer equ_bit ls rs (equ_bit l.truth r.truth q) ρ) rest

module _ (p : Package) (laws : Lawful p) where
  -- What a step of a comparison leaves: the new answer takes the place of the old one.
  abbrev Answers : (ℕ → ℕ → ℕ → Cmd ℕ) → (Fn → Fn → Fn → Fn) → Type 0
  Answers step bit_of =
      (s : Kernel) (l r q : Ref) (held : List Ref)
      → laws.Holds s (q ∷ held)
      → In l held
      → In r held
      → (a : ℕ) × (s' : Kernel) × (step l.bdd r.bdd q.bdd s ≡ done a s')
        × laws.Holds s' (record { bdd = a; truth = bit_of l.truth r.truth q.truth } ∷ held)

  -- The intermediate results and the old answer are released.
  released :
      (s : Kernel) (x4 x3 x2 x1 q : Ref) (held : List Ref)
      → laws.Holds s (x4 ∷ x3 ∷ x2 ∷ x1 ∷ q ∷ held)
      → (s' : Kernel) × (delref_all p (x1.bdd ∷ x2.bdd ∷ x3.bdd ∷ q.bdd ∷ []) s ≡ done tt s')
        × laws.Holds s' (x4 ∷ held)
  unfolding delref_all
  released s x4 x3 x2 x1 q held h =
      let (s5, e5, h5) = laws.release s (x4 ∷ x3 ∷ x2 ∷ x1 ∷ q ∷ held) 3 h in
      let (s6, e6, h6) = laws.release s5 (x4 ∷ x3 ∷ x2 ∷ q ∷ held) 2 h5 in
      let (s7, e7, h7) = laws.release s6 (x4 ∷ x3 ∷ q ∷ held) 1 h6 in
      let (s8, e8, h8) = laws.release s7 (x4 ∷ q ∷ held) 1 h7 in (s8, rw (e5, e6, e7, e8) refl, h8)

  order_step-Answers : Answers (order_step p) order_bit
  unfolding order_step
  order_step-Answers s l r q held h il ir =
      let (a1, s1, e1, h1) = laws.combine less s (q ∷ held) l r h (inr il) (inr ir) in
      let x1 : Ref = record { bdd = a1; truth = λ ρ. op_bool less (l.truth ρ) (r.truth ρ) } in
      let (a2, s2, e2, h2) =
        laws.combine biimp s1 (x1 ∷ q ∷ held) l r h1 (inr (inr il)) (inr (inr ir)) in
      let x2 : Ref = record { bdd = a2; truth = λ ρ. op_bool biimp (l.truth ρ) (r.truth ρ) } in
      let (a3, s3, e3, h3) =
        laws.combine and s2 (x2 ∷ x1 ∷ q ∷ held) x2 q h2 (inl refl) (inr (inr (inl refl))) in
      let x3 : Ref = record {
        bdd = a3;
        truth = λ ρ. op_bool and (op_bool biimp (l.truth ρ) (r.truth ρ)) (q.truth ρ);
      } in
      let (a4, s4, e4, h4) =
        laws.combine or s3 (x3 ∷ x2 ∷ x1 ∷ q ∷ held) x1 x3 h3 (inr (inr (inl refl))) (inl refl) in
      let x4 : Ref = record { bdd = a4; truth = order_bit l.truth r.truth q.truth } in
      let (s8, e8, h8) = released s4 x4 x3 x2 x1 q held h4 in
      (a4, s8, rw (e1, e2, e3, e4, e8) refl, h8)

  equ_step-Answers : Answers (equ_step p) equ_bit
  unfolding equ_step
  equ_step-Answers s l r q held h il ir =
      let (a1, s1, e1, h1) = laws.combine biimp s (q ∷ held) l r h (inr il) (inr ir) in
      let x1 : Ref = record { bdd = a1; truth = λ ρ. op_bool biimp (l.truth ρ) (r.truth ρ) } in
      let (a2, s2, e2, h2) =
        laws.combine and s1 (x1 ∷ q ∷ held) x1 q h1 (inl refl) (inr (inl refl)) in
      let x2 : Ref = record { bdd = a2; truth = equ_bit l.truth r.truth q.truth } in
      let (s3, e3, h3) = laws.release s2 (x2 ∷ x1 ∷ q ∷ held) 1 h2 in
      let (s4, e4, h4) = laws.release s3 (x2 ∷ q ∷ held) 1 h3 in
      (a2, s4, rw (e1, e2, e3, e4) refl, h4)

  fold-Holds :
      (step : ℕ → ℕ → ℕ → Cmd ℕ) (bit_of : Fn → Fn → Fn → Fn)
      → Answers step bit_of
      → (ls rs : List Ref) (q : Ref) (held : List Ref) (s : Kernel) → laws.Holds s (q ∷ held)
      → AllIn ls held
      → AllIn rs held
      → (a : Ref) × (s' : Kernel) × (fold p step (bdds ls) (bdds rs) q.bdd s ≡ done a.bdd s')
        × laws.Holds s' (a ∷ held)
        × (a.truth ≡ answer bit_of ls rs q.truth)
  unfolding fold
  fold-Holds step bit_of steps [] rs q held s h il ir = (q, s, refl, h, refl)
  fold-Holds step bit_of steps (l ∷ ls) [] q held s h il ir = (q, s, refl, h, refl)
  fold-Holds step bit_of steps (l ∷ ls) (r ∷ rs) q held s h il ir =
      let (b, s1, e1, h1) = steps s l r q held h il.0 ir.0 in
      let next : Ref = record { bdd = b; truth = bit_of l.truth r.truth q.truth } in
      let (a, s2, e2, h2, t2) = fold-Holds step bit_of steps ls rs next held s1 h1 il.1 ir.1 in
      (a, s2, ap (λ o. and_then o (fold p step (bdds ls) (bdds rs))) e1 ∙ e2, h2, t2)

  -- A comparison of vectors that are not empty, counted by the caller.
  comparison-Holds :
      (step : ℕ → ℕ → ℕ → Cmd ℕ) (bit_of : Fn → Fn → Fn → Fn) (start : Bool)
      → Answers step bit_of
      → (ls rs : List Ref) (held : List Ref) (s : Kernel) → laws.Holds s held
      → AllIn ls held
      → AllIn rs held
      → length ls ≡ length rs
      → 0 < length ls
      → (a : Ref) × (s' : Kernel) × ((comparison p step (digit start) (bdds ls) (bdds rs)
              >>= p.addref)
            s
          ≡ done a.bdd s')
        × laws.Holds s' (a ∷ held)
        × (a.truth ≡ answer bit_of ls rs (λ ρ. start))
  unfolding comparison
  comparison-Holds step bit_of start steps ls rs held s h il ir e some =
      let first : Ref = record { bdd = digit start; truth = λ ρ. start } in
      let (a, s1, e1, h1, t) =
        fold-Holds step bit_of steps ls rs first held s (laws.constant start s held h) il ir in
      let (s2, e2, h2) = laws.regain s1 held a h1 in
      let ll = length-bdds ls in
      let lr = length-bdds rs in
      let filled : ((length (bdds ls) == 0) || (length (bdds rs) == 0)) ≡ false = ground arith in
      let same : (length (bdds ls) == length (bdds rs)) ≡ true = ground arith in
      (a, s2, rw (comparison, filled, same, e1) e2, h2, t)

  -- Of two vectors of one size, not empty, whose bits a client holds, `bvec_lth` counted by its caller
  -- returns a BDD that the client then holds: it is true under an assignment exactly where the first
  -- number is less than the second.
  pub lth-number :
      (ls rs : List Ref) (held : List Ref) (s : Kernel)
      → laws.Holds s held
      → AllIn ls held
      → AllIn rs held
      → length ls ≡ length rs
      → 0 < length ls
      → (a : Ref) × (s' : Kernel) × ((lth p (bdds ls) (bdds rs) >>= p.addref) s ≡ done a.bdd s')
        × laws.Holds s' (a ∷ held)
        × ((ρ : Assignment) → a.truth ρ ≡ ltb (number (truths ls) ρ) (number (truths rs) ρ))
  unfolding lth
  lth-number ls rs held s h il ir e some =
      let (a, s', run, h', t) =
        comparison-Holds (order_step p) order_bit false order_step-Answers ls rs held s h il ir e
          some in
      (
        a,
        s',
        run,
        h',
        λ ρ. let out = ap (λ (f : Fn). f ρ) t ∙ answer-order ls rs (λ i. false) ρ e in ground arith,
      )

  -- Of two vectors of one size, not empty, whose bits a client holds, `bvec_lte` counted by its caller
  -- returns a BDD that the client then holds: it is true under an assignment exactly where the first
  -- number is at most the second.
  pub lte-number :
      (ls rs : List Ref) (held : List Ref) (s : Kernel)
      → laws.Holds s held
      → AllIn ls held
      → AllIn rs held
      → length ls ≡ length rs
      → 0 < length ls
      → (a : Ref) × (s' : Kernel) × ((lte p (bdds ls) (bdds rs) >>= p.addref) s ≡ done a.bdd s')
        × laws.Holds s' (a ∷ held)
        × ((ρ : Assignment) → a.truth ρ ≡ leb (number (truths ls) ρ) (number (truths rs) ρ))
  unfolding lte
  lte-number ls rs held s h il ir e some =
      let (a, s', run, h', t) =
        comparison-Holds (order_step p) order_bit true order_step-Answers ls rs held s h il ir e
          some in
      (
        a,
        s',
        run,
        h',
        λ ρ. let out = ap (λ (f : Fn). f ρ) t ∙ answer-order ls rs (λ i. true) ρ e in ground arith,
      )

  -- Of two vectors of one size, not empty, whose bits a client holds, `bvec_equ` counted by its caller
  -- returns a BDD that the client then holds: it is true under an assignment exactly where the first
  -- number equals the second.
  pub equ-number :
      (ls rs : List Ref) (held : List Ref) (s : Kernel)
      → laws.Holds s held
      → AllIn ls held
      → AllIn rs held
      → length ls ≡ length rs
      → 0 < length ls
      → (a : Ref) × (s' : Kernel) × ((equ p (bdds ls) (bdds rs) >>= p.addref) s ≡ done a.bdd s')
        × laws.Holds s' (a ∷ held)
        × ((ρ : Assignment) → a.truth ρ ≡ (number (truths ls) ρ == number (truths rs) ρ))
  unfolding equ
  equ-number ls rs held s h il ir e some =
      let (a, s', run, h', t) =
        comparison-Holds (equ_step p) equ_bit true equ_step-Answers ls rs held s h il ir e some in
      (
        a,
        s',
        run,
        h',
        λ ρ. let out = ap (λ (f : Fn). f ρ) t ∙ answer-equ ls rs (λ i. true) ρ e in ground arith,
      )
