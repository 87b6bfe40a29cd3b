-- ===== src/Bvec/Arithmetic.antt =====
-- `bvec_add` and `bvec_sub` of src/bvec.c compute sums and differences.
pub mod Number
use mo_to_buddy.Prelude.{
  [], ℕ, ◌+◌, ◌^◌, ◌%◌, ◌≡◌, refl, sym, ap, true, false, ◌||◌, List, ◌∷◌, length, arith, ◌==◌,
}
use mo_to_buddy.Tree.{Assignment}
use mo_to_buddy.Kernel.{Kernel, done, Cmd}
use mo_to_buddy.Session.{Ref}
use mo_to_buddy.Bvec.{Package, ripple, arithmetic, add, sub, add_step, sub_step}
use mo_to_buddy.Bvec.Laws.{
  Lawful, Fn, sum_bit, carry_bit, borrow_bit, Stepped, add_step-Stepped, sub_step-Stepped,
}
pub use mo_to_buddy.Bvec.Arithmetic.Number.{
  digit, number, truths, bdds, AllIn, pile, AllIn-more, length-bdds,
}
use mo_to_buddy.Bvec.Arithmetic.Number.{trace, trace-add, trace-sub, bits_size, bits_lt, remainder}

module _ (p : Package) (laws : Lawful p) where
  ripple-Holds :
      (step : ℕ → ℕ → ℕ → Cmd (ℕ × ℕ)) (bit_of carry_of : Fn → Fn → Fn → Fn)
      → Stepped p laws step bit_of carry_of
      → (ls rs : List Ref) (c : Ref) (held : List Ref) (s : Kernel) → laws.Holds s (c ∷ held)
      → AllIn ls held
      → AllIn rs held
      → (bits : List Ref) × (out : Ref) × (s' : Kernel) × (ripple p step (bdds ls) (bdds rs) c.bdd s
          ≡ done (bdds bits, out.bdd) s')
        × laws.Holds s' (out ∷ pile bits held)
        × (truths bits ≡ (trace bit_of carry_of ls rs c.truth).0)
        × (out.truth ≡ (trace bit_of carry_of ls rs c.truth).1)
  unfolding ripple
  ripple-Holds step bit_of carry_of steps [] rs c held s h il ir = ([], c, s, refl, h, refl, refl)
  ripple-Holds step bit_of carry_of steps (l ∷ ls) [] c held s h il ir =
      ([], c, s, refl, h, refl, refl)
  ripple-Holds step bit_of carry_of steps (l ∷ ls) (r ∷ rs) c held s h il ir =
      let (b, k, s1, e1, h1) = steps s l r c held h il.0 ir.0 in
      let bit : Ref = record { bdd = b; truth = bit_of l.truth r.truth c.truth } in
      let carry : Ref = record { bdd = k; truth = carry_of l.truth r.truth c.truth } in
      let (bits, out, s2, e2, h2, t2, o2) =
        ripple-Holds step bit_of carry_of steps ls rs carry (bit ∷ held) s1 h1
          (AllIn-more ls held bit il.1) (AllIn-more rs held bit ir.1) in
      (
        bit ∷ bits,
        out,
        s2,
        rw (e1, e2) refl,
        h2,
        ap (λ fs. bit_of l.truth r.truth c.truth ∷ fs) t2,
        o2,
      )

  -- What is left when the last carry was released.
  arithmetic-Holds :
      (step : ℕ → ℕ → ℕ → Cmd (ℕ × ℕ)) (bit_of carry_of : Fn → Fn → Fn → Fn)
      → Stepped p laws step bit_of carry_of
      → (ls rs : List Ref) (held : List Ref) (s : Kernel) → laws.Holds s held
      → AllIn ls held
      → AllIn rs held
      → length ls ≡ length rs
      → (bits : List Ref) × (s' : Kernel) × (arithmetic p step (bdds ls) (bdds rs) s
          ≡ done (bdds bits) s')
        × laws.Holds s' (pile bits held)
        × (truths bits ≡ (trace bit_of carry_of ls rs (λ ρ. false)).0)
  unfolding arithmetic
  arithmetic-Holds step bit_of carry_of steps [] [] held s h il ir e = ([], s, refl, h, refl)
  arithmetic-Holds step bit_of carry_of steps [] (r ∷ rs) held s h il ir e = absurd (omega arith)
  arithmetic-Holds step bit_of carry_of steps (l ∷ ls) [] held s h il ir e = absurd (omega arith)
  arithmetic-Holds step bit_of carry_of steps (l ∷ ls) (r ∷ rs) held s h il ir e =
      let zero_ref : Ref = record { bdd = 0; truth = λ ρ. false } in
      let (bits, out, s1, e1, h1, t1, o1) =
        ripple-Holds step bit_of carry_of steps (l ∷ ls) (r ∷ rs) zero_ref held s
          (laws.constant false s held h) il ir in
      let (s2, e2, h2) = laws.release s1 (out ∷ pile bits held) 0 h1 in
      let ll = length-bdds (l ∷ ls) in
      let lr = length-bdds (r ∷ rs) in
      let filled : ((length (bdds (l ∷ ls)) == 0) || (length (bdds (r ∷ rs)) == 0)) ≡ false =
        ground arith in
      let same : (length (bdds (l ∷ ls)) == length (bdds (r ∷ rs))) ≡ true = ground arith in
      (bits, s2, rw (arithmetic, filled, same, e1, e2) refl, h2, t1)

  -- Of two vectors of the same size whose bits a client holds, `bvec_add` returns a vector of that
  -- size whose bits the client then holds as well; under every assignment it is the sum of the two
  -- numbers modulo two to the number of bits.
  pub add-number :
      (ls rs : List Ref) (held : List Ref) (s : Kernel)
      → laws.Holds s held
      → AllIn ls held
      → AllIn rs held
      → length ls ≡ length rs
      → (bits : List Ref) × (s' : Kernel) × (add p (bdds ls) (bdds rs) s ≡ done (bdds bits) s')
        × laws.Holds s' (pile bits held)
        × (length bits ≡ length ls)
        × ((ρ : Assignment)
            → number (truths bits) ρ
              ≡ (number (truths ls) ρ + number (truths rs) ρ) % 2 ^ length ls)
  unfolding add
  add-number ls rs held s h il ir e =
      let (bits, s', run, h', t) =
        arithmetic-Holds (add_step p) sum_bit carry_bit (add_step-Stepped p laws) ls rs held s h il
          ir e in
      let size = bits_size bits ls rs sum_bit carry_bit t e in
      (
        bits,
        s',
        run,
        h',
        size,
        λ ρ.
            let sum = trace-add ls rs (λ i. false) ρ e in
            let same : number (truths bits) ρ
                ≡ number (trace sum_bit carry_bit ls rs (λ i. false)).0 ρ =
              ap (λ fs. number fs ρ) t in
            sym (
              remainder (length ls) (number (truths bits) ρ)
                (number (truths ls) ρ + number (truths rs) ρ)
                ((trace sum_bit carry_bit ls rs (λ i. false)).1 ρ) (bits_lt bits ls ρ size)
                (omega arith)),
      )

  -- Of two vectors of the same size whose bits a client holds, `bvec_sub` returns a vector of that
  -- size whose bits the client then holds as well; under every assignment, adding the second number
  -- to it gives the first modulo two to the number of bits.
  pub sub-number :
      (ls rs : List Ref) (held : List Ref) (s : Kernel)
      → laws.Holds s held
      → AllIn ls held
      → AllIn rs held
      → length ls ≡ length rs
      → (bits : List Ref) × (s' : Kernel) × (sub p (bdds ls) (bdds rs) s ≡ done (bdds bits) s')
        × laws.Holds s' (pile bits held)
        × (length bits ≡ length ls)
        × ((ρ : Assignment)
            → (number (truths bits) ρ + number (truths rs) ρ) % 2 ^ length ls
              ≡ number (truths ls) ρ)
  unfolding sub
  sub-number ls rs held s h il ir e =
      let (bits, s', run, h', t) =
        arithmetic-Holds (sub_step p) sum_bit borrow_bit (sub_step-Stepped p laws) ls rs held s h il
          ir e in
      let size = bits_size bits ls rs sum_bit borrow_bit t e in
      (
        bits,
        s',
        run,
        h',
        size,
        λ ρ.
            let difference = trace-sub ls rs (λ i. false) ρ e in
            let same : number (truths bits) ρ
                ≡ number (trace sum_bit borrow_bit ls rs (λ i. false)).0 ρ =
              ap (λ fs. number fs ρ) t in
            remainder (length ls) (number (truths ls) ρ)
              (number (truths bits) ρ + number (truths rs) ρ)
              ((trace sum_bit borrow_bit ls rs (λ i. false)).1 ρ) (bits_lt ls ls ρ refl)
              (omega arith),
      )
