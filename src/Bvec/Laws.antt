-- ===== src/Bvec/Laws.antt =====
-- What src/bvec.c relies on in the BDD package, and what a step of its loops makes of the bits.
use mo_to_buddy.Prelude.{ℕ, ◌≡◌, refl, ◌⊎◌, inl, inr, Bool, List, [], ◌∷◌, if◌then◌else◌}
use mo_to_buddy.Tree.{Assignment}
use mo_to_buddy.Kernel.{Kernel, done, Cmd, ◌>>=◌}
use mo_to_buddy.Op.{Op, and, or, xor, less}
use mo_to_buddy.Op.Ready.{op_bool}
use mo_to_buddy.Session.{Ref, nth, remove}
use mo_to_buddy.Bvec.{Package, counted, after, before, add_step, sub_step}

-- A reference is among those that are held.
abbrev pub In : Ref → List Ref → Type 0
In x [] = ⊥
In x (y ∷ ys) = (x ≡ y) ⊎ In x ys

-- `Holds s held`: the client may go on in state `s`, and holds these references.
pub record Lawful (p : Package) : Type 1 where
  pub Holds : Kernel → List Ref → Type 0
  pub combine :
      (op : Op) (s : Kernel) (held : List Ref) (x y : Ref)
      → Holds s held
      → In x held
      → In y held
      → (r : ℕ) × (s' : Kernel) × (counted p op x.bdd y.bdd s ≡ done r s')
        × Holds s' (record { bdd = r; truth = λ ρ. op_bool op (x.truth ρ) (y.truth ρ) } ∷ held)
  pub release :
      (s : Kernel) (held : List Ref) (i : ℕ)
      → Holds s held
      → (s' : Kernel) × (p.delref (nth held i).bdd s ≡ done (nth held i).bdd s')
        × Holds s' (remove held i)
  pub constant :
      (b : Bool) (s : Kernel) (held : List Ref)
      → Holds s held
      → Holds s (record { bdd = if b then 1 else 0; truth = λ ρ. b } ∷ held)
  pub regain :
      (s : Kernel) (held : List Ref) (x : Ref)
      → Holds s (x ∷ held)
      → (s' : Kernel) × ((p.delref x.bdd >>= p.addref) s ≡ done x.bdd s') × Holds s' (x ∷ held)

abbrev pub Fn : Type 0
Fn = Assignment → Bool

-- The bit and the carry that `bvec_add` makes.
abbrev pub sum_bit : Fn → Fn → Fn → Fn
sum_bit l r c ρ = op_bool xor (op_bool xor (l ρ) (r ρ)) (c ρ)

abbrev pub carry_bit : Fn → Fn → Fn → Fn
carry_bit l r c ρ =
    op_bool or (op_bool and (l ρ) (r ρ)) (op_bool and (c ρ) (op_bool or (l ρ) (r ρ)))

-- The borrow that `bvec_sub` makes.
abbrev pub borrow_bit : Fn → Fn → Fn → Fn
borrow_bit l r c ρ =
    op_bool or (op_bool and (op_bool and (l ρ) (r ρ)) (c ρ))
      (op_bool less (l ρ) (op_bool or (r ρ) (c ρ)))

module _ (p : Package) (laws : Lawful p) where
  -- What a call leaves that returns one counted BDD.
  abbrev pub Counted : Cmd ℕ → Kernel → List Ref → (Assignment → Bool) → Type 0
  Counted call s held f =
      (r : ℕ) × (s' : Kernel) × (call s ≡ done r s')
      × laws.Holds s' (record { bdd = r; truth = f } ∷ held)

  pub after-Counted :
      (op1 op2 : Op) (s : Kernel) (l r x : Ref) (held : List Ref)
      → laws.Holds s held
      → In l held
      → In r held
      → In x held
      → Counted
          (after p op1 op2 l.bdd r.bdd x.bdd)
          s
          held
          (λ ρ. op_bool op2 (op_bool op1 (l.truth ρ) (r.truth ρ)) (x.truth ρ))
  unfolding after
  after-Counted op1 op2 s l r x held h il ir ix =
      let (a1, s1, e1, h1) = laws.combine op1 s held l r h il ir in
      let x1 : Ref = record { bdd = a1; truth = λ ρ. op_bool op1 (l.truth ρ) (r.truth ρ) } in
      let (a2, s2, e2, h2) = laws.combine op2 s1 (x1 ∷ held) x1 x h1 (inl refl) (inr ix) in
      let x2 : Ref = record {
        bdd = a2;
        truth = λ ρ. op_bool op2 (op_bool op1 (l.truth ρ) (r.truth ρ)) (x.truth ρ);
      } in
      let (s3, e3, h3) = laws.release s2 (x2 ∷ x1 ∷ held) 1 h2 in (a2, s3, rw (e1, e2, e3) refl, h3)

  pub before-Counted :
      (op1 op2 : Op) (s : Kernel) (x l r : Ref) (held : List Ref)
      → laws.Holds s held
      → In x held
      → In l held
      → In r held
      → Counted
          (before p op1 op2 x.bdd l.bdd r.bdd)
          s
          held
          (λ ρ. op_bool op2 (x.truth ρ) (op_bool op1 (l.truth ρ) (r.truth ρ)))
  unfolding before
  before-Counted op1 op2 s x l r held h ix il ir =
      let (a1, s1, e1, h1) = laws.combine op1 s held l r h il ir in
      let x1 : Ref = record { bdd = a1; truth = λ ρ. op_bool op1 (l.truth ρ) (r.truth ρ) } in
      let (a2, s2, e2, h2) = laws.combine op2 s1 (x1 ∷ held) x x1 h1 (inr ix) (inl refl) in
      let x2 : Ref = record {
        bdd = a2;
        truth = λ ρ. op_bool op2 (x.truth ρ) (op_bool op1 (l.truth ρ) (r.truth ρ));
      } in
      let (s3, e3, h3) = laws.release s2 (x2 ∷ x1 ∷ held) 1 h2 in (a2, s3, rw (e1, e2, e3) refl, h3)

  -- What a step of an adder leaves: the new carry and then the bit take the place of the carry.
  abbrev pub Stepped :
      (ℕ → ℕ → ℕ → Cmd (ℕ × ℕ)) → (Fn → Fn → Fn → Fn) → (Fn → Fn → Fn → Fn) → Type 0
  Stepped step bit_of carry_of =
      (s : Kernel) (l r c : Ref) (held : List Ref)
      → laws.Holds s (c ∷ held)
      → In l held
      → In r held
      → (bit : ℕ) × (carry : ℕ) × (s' : Kernel) × (step l.bdd r.bdd c.bdd s ≡ done (bit, carry) s')
        × laws.Holds s' (
            record { bdd = carry; truth = carry_of l.truth r.truth c.truth }
            ∷ record { bdd = bit; truth = bit_of l.truth r.truth c.truth }
            ∷ held)

  pub add_step-Stepped : Stepped (add_step p) sum_bit carry_bit
  unfolding add_step
  add_step-Stepped s l r c held h il ir =
      let (b1, s1, e1, h1) =
        after-Counted xor xor s l r c (c ∷ held) h (inr il) (inr ir) (inl refl) in
      let x1 : Ref = record { bdd = b1; truth = sum_bit l.truth r.truth c.truth } in
      let (b2, s2, e2, h2) =
        before-Counted or and s1 c l r (x1 ∷ c ∷ held) h1 (inr (inl refl)) (inr (inr il))
          (inr (inr ir)) in
      let x2 : Ref = record {
        bdd = b2;
        truth = λ ρ. op_bool and (c.truth ρ) (op_bool or (l.truth ρ) (r.truth ρ));
      } in
      let (b3, s3, e3, h3) =
        after-Counted and or s2 l r x2 (x2 ∷ x1 ∷ c ∷ held) h2 (inr (inr (inr il)))
          (inr (inr (inr ir))) (inl refl) in
      let x3 : Ref = record { bdd = b3; truth = carry_bit l.truth r.truth c.truth } in
      let (s4, e4, h4) = laws.release s3 (x3 ∷ x2 ∷ x1 ∷ c ∷ held) 1 h3 in
      let (s5, e5, h5) = laws.release s4 (x3 ∷ x1 ∷ c ∷ held) 2 h4 in
      (b1, b3, s5, rw (e1, e2, e3, e4, e5) refl, h5)

  pub sub_step-Stepped : Stepped (sub_step p) sum_bit borrow_bit
  unfolding sub_step
  sub_step-Stepped s l r c held h il ir =
      let (b1, s1, e1, h1) =
        after-Counted xor xor s l r c (c ∷ held) h (inr il) (inr ir) (inl refl) in
      let x1 : Ref = record { bdd = b1; truth = sum_bit l.truth r.truth c.truth } in
      let (b2, s2, e2, h2) =
        before-Counted or less s1 l r c (x1 ∷ c ∷ held) h1 (inr (inr il)) (inr (inr ir))
          (inr (inl refl)) in
      let x2 : Ref = record {
        bdd = b2;
        truth = λ ρ. op_bool less (l.truth ρ) (op_bool or (r.truth ρ) (c.truth ρ));
      } in
      let (b3, s3, e3, h3) =
        after-Counted and and s2 l r c (x2 ∷ x1 ∷ c ∷ held) h2 (inr (inr (inr il)))
          (inr (inr (inr ir))) (inr (inr (inl refl))) in
      let x3 : Ref = record {
        bdd = b3;
        truth = λ ρ. op_bool and (op_bool and (l.truth ρ) (r.truth ρ)) (c.truth ρ);
      } in
      let (b4, s4, e4, h4) =
        laws.combine or s3 (x3 ∷ x2 ∷ x1 ∷ c ∷ held) x3 x2 h3 (inl refl) (inr (inl refl)) in
      let x4 : Ref = record { bdd = b4; truth = borrow_bit l.truth r.truth c.truth } in
      let (s5, e5, h5) = laws.release s4 (x4 ∷ x3 ∷ x2 ∷ x1 ∷ c ∷ held) 2 h4 in
      let (s6, e6, h6) = laws.release s5 (x4 ∷ x3 ∷ x1 ∷ c ∷ held) 1 h5 in
      let (s7, e7, h7) = laws.release s6 (x4 ∷ x1 ∷ c ∷ held) 2 h6 in
      (b1, b4, s7, rw (e1, e2, e3, e4, e5, e6, e7) refl, h7)
