-- ===== src/Pairs/Distinct.antt =====
-- Lists of replacement tables of src/pairs.c that differ in number and address, and what drawing a
-- number and writing to one table do to them.
use mo_to_buddy.Prelude.{
  ℕ, ◌+◌, ◌≤◌, ◌<◌, ◌≡◌, ◌≢◌, refl, sym, ◌∙◌, ap, subst, inl, inr, false, List, [], ◌∷◌, ◌==◌,
  if◌then◌else◌, arith, All, Bool-cases,
}
use mo_to_buddy.Kernel.{Kernel}
use mo_to_buddy.Pairs.{BddPair, Pairs, last_pairsid, renumber, count, update_pairsid, at_address}

-- No table of the list has the number, or stands at the address.
abbrev HasNot : (BddPair → ℕ) → ℕ → List BddPair → Type 0
HasNot field i = All (λ p. field p ≢ i)

abbrev pub id_of : BddPair → ℕ
id_of p = p.id

abbrev pub address_of : BddPair → ℕ
address_of p = p.address

abbrev pub IsFree : ℕ → List BddPair → Type 0
IsFree = HasNot address_of

-- A field tells the tables apart.
abbrev pub Different : (BddPair → ℕ) → List BddPair → Type 0
Different field [] = Unit
Different field (p ∷ ps) = HasNot field (field p) ps × Different field ps

-- The tables in use differ in number and address, and no number is still to come.
pub record IsDistinct (t : Pairs) : Type 0 where
  pub below : All (λ p. p.id ≤ t.pairsid) t.pairs
  pub ids : Different id_of t.pairs
  pub addresses : Different address_of t.pairs

pub All-mono {ℓ} :
    {A : Type ℓ} {P Q : A → Type 0} (xs : List A) → ((x : A) → P x → Q x) → All P xs → All Q xs
All-mono [] f h = tt
All-mono (x ∷ xs) f (p, h) = (f x p, All-mono xs f h)

renumber-below :
    (i n : ℕ) (ps : List BddPair) → i + count ps ≤ n → All (λ p. p.id < n) (renumber i ps)
renumber-below i n [] h = tt
renumber-below i n (p ∷ ps) h = (omega arith, renumber-below (i + 1) n ps (omega arith))

renumber-above : (i j : ℕ) (ps : List BddPair) → j < i → HasNot id_of j (renumber i ps)
renumber-above i j [] h = tt
renumber-above i j (p ∷ ps) h =
    (λ e. absurd (omega arith), renumber-above (i + 1) j ps (omega arith))

renumber-Different : (i : ℕ) (ps : List BddPair) → Different id_of (renumber i ps)
renumber-Different i [] = tt
renumber-Different i (p ∷ ps) =
    (renumber-above (i + 1) i ps (omega arith), renumber-Different (i + 1) ps)

renumber-HasNot :
    (i a : ℕ) (ps : List BddPair) → HasNot address_of a ps → HasNot address_of a (renumber i ps)
renumber-HasNot i a [] h = tt
renumber-HasNot i a (p ∷ ps) (ne, h) = (ne, renumber-HasNot (i + 1) a ps h)

renumber-addresses :
    (i : ℕ) (ps : List BddPair) → Different address_of ps → Different address_of (renumber i ps)
renumber-addresses i [] h = tt
renumber-addresses i (p ∷ ps) (ne, h) =
    (renumber-HasNot (i + 1) p.address ps ne, renumber-addresses (i + 1) ps h)

-- After a new number was drawn, it is above those of the tables.
pub record Drawn (t t' : Pairs) : Type 0 where
  pub below : All (λ p. p.id < t'.pairsid) t'.pairs
  pub ids : Different id_of t'.pairs
  pub addresses : Different address_of t'.pairs
  pub free : (a : ℕ) → IsFree a t.pairs → IsFree a t'.pairs

pub update_pairsid-Drawn : (t : Pairs) (s : Kernel) → IsDistinct t → Drawn t (update_pairsid t s).0
unfolding update_pairsid
update_pairsid-Drawn t s d = elim (Bool-cases (t.pairsid + 1 == last_pairsid)) [
  | inl over ↦
      rw (update_pairsid, over)
        (record {
          below = renumber-below 0 (count t.pairs) t.pairs (omega arith);
          ids = renumber-Different 0 t.pairs;
          addresses = renumber-addresses 0 t.pairs d.addresses;
          free = λ a f. renumber-HasNot 0 a t.pairs f;
        })
  | inr more ↦
      rw (update_pairsid, more)
        (record {
          below = All-mono t.pairs (λ p h. omega arith) d.below;
          ids = d.ids;
          addresses = d.addresses;
          free = λ a f. f;
        })
]

-- A write that gives a table a number above all others.
module _ (a n : ℕ) (f : BddPair → BddPair) (numbered : (p : BddPair) → (f p).id ≡ n)
    (stays : (p : BddPair) → (f p).address ≡ p.address) where
  at_address-below :
      (ps : List BddPair) → All (λ p. p.id < n) ps → All (λ p. p.id ≤ n) (at_address a f ps)
  at_address-below [] h = tt
  at_address-below (p ∷ ps) (lt, h) = (
    elim (Bool-cases (p.address == a)) [
      | inl e ↦ rw e (omega (arith, numbered p))
      | inr e ↦ rw e (omega arith)
    ],
    at_address-below ps h,
  )

  at_address-address : (p : BddPair) → (if p.address == a then f p else p).address ≡ p.address
  at_address-address p = elim (Bool-cases (p.address == a)) [
    | inl e ↦ rw e (stays p)
    | inr e ↦ rw e refl
  ]

  at_address-HasNot :
      (b : ℕ) (ps : List BddPair) → HasNot address_of b ps → HasNot address_of b (at_address a f ps)
  at_address-HasNot b [] h = tt
  at_address-HasNot b (p ∷ ps) (ne, h) =
      (λ e. ne (sym (at_address-address p) ∙ e), at_address-HasNot b ps h)

  at_address-addresses :
      (ps : List BddPair) → Different address_of ps → Different address_of (at_address a f ps)
  at_address-addresses [] h = tt
  at_address-addresses (p ∷ ps) (ne, h) = (
    subst (λ b. HasNot address_of b (at_address a f ps)) (sym (at_address-address p))
        (at_address-HasNot p.address ps ne),
    at_address-addresses ps h,
  )

  at_address-other :
      (i : ℕ) (ps : List BddPair) → i < n → HasNot id_of i ps → HasNot id_of i (at_address a f ps)
  at_address-other i [] lt h = tt
  at_address-other i (p ∷ ps) lt (ne, h) = (
    elim (Bool-cases (p.address == a)) [
      | inl e ↦ rw e (λ same. absurd (omega (arith, numbered p, same)))
      | inr e ↦ rw e ne
    ],
    at_address-other i ps lt h,
  )

  at_address-absent : (ps : List BddPair) → IsFree a ps → at_address a f ps ≡ ps
  at_address-absent [] h = refl
  at_address-absent (p ∷ ps) (ne, h) =
      let other : (p.address == a) ≡ false = ground arith in
      rw other (ap (λ qs. p ∷ qs) (at_address-absent ps h))

  at_address-ids :
      (ps : List BddPair)
      → All (λ p. p.id < n) ps
      → Different id_of ps
      → Different address_of ps
      → Different id_of (at_address a f ps)
  at_address-ids [] h d e = tt
  at_address-ids (p ∷ ps) (lt, h) (ne, d) (na, e) = elim (Bool-cases (p.address == a)) [
    | inl hit ↦
        let here : p.address ≡ a = ground arith in
        let same = at_address-absent ps (subst (λ b. IsFree b ps) here na) in
        rw (hit, same)
          (
            subst (λ i. HasNot id_of i ps) (sym (numbered p))
                (All-mono ps (λ q less e. absurd (omega arith)) h),
            d,
          )
    | inr miss ↦ rw miss (at_address-other p.id ps lt ne, at_address-ids ps h d e)
  ]

  pub at_address-IsDistinct :
      {t t' : Pairs}
      → n ≡ t'.pairsid
      → Drawn t t'
      → IsDistinct (record t' { pairs = at_address a f t'.pairs })
  at_address-IsDistinct {t} {t'} e d =
      let less = subst (λ m. All (λ p. p.id < m) t'.pairs) (sym e) d.below in
      record {
        below =
            subst (λ m. All (λ p. p.id ≤ m) (at_address a f t'.pairs)) e
              (at_address-below t'.pairs less);
        ids = at_address-ids t'.pairs less d.ids d.addresses;
        addresses = at_address-addresses t'.pairs d.addresses;
      }
