-- ===== src/Prime/Search.antt =====
-- The search for a prime upwards, in src/prime.c.
use mo_to_buddy.Prelude.{
  ℕ, zero, suc, ◌+◌, ◌-◌, ◌*◌, ◌/◌, ◌%◌, ◌^◌, ◌≤◌, ◌<◌, ◌≡◌, refl, sym, ◌∙◌, ap, inl, inr, true,
  false, some, ◌==◌, arith, Bool-cases, ℕ_discrete,
}
use mo_to_buddy.Prime.{
  word, random, has_easy_factors, is_witness, rounds, is_miller_rabin_prime, is_prime, search_up,
  bdd_prime_gte,
}
use mo_to_buddy.Prime.Fermat.{largest_modulus, is_witness-Fermat}
use native.Mathlib.Nat.{mod-lt}

random-lt : (draw p : ℕ) → 2 ≤ p → draw % (p - 1) + 1 < p
random-lt draw p big = omega (arith, mod-lt draw {m = p - 1} (omega arith))

module _ (rand : ℕ → ℕ) where
  -- The number has none of the factors tried first, and Fermat's theorem holds of it for twenty bases
  -- drawn in a row.
  pub record Plausible (p : ℕ) : Type 0 where
    pub no_factor : has_easy_factors p ≡ false
    pub at : ℕ
    pub fermat : (i : ℕ) → i < 20 → random rand (at + i) (p - 1) ^ (p - 1) % p ≡ 1

  rounds-Fermat :
      (n p at : ℕ)
      → 2 ≤ p
      → p ≤ largest_modulus
      → (rounds rand n p at).0 ≡ true
      → (i : ℕ) → i < n
      → random rand (at + i) (p - 1) ^ (p - 1) % p ≡ 1
  unfolding rounds
  rounds-Fermat zero p at big small h i lt = absurd (omega arith)
  rounds-Fermat (suc n) p at big small h i lt =
      elim (Bool-cases (is_witness (random rand at (p - 1)) p)) [
        | inl found ↦ let clash : false ≡ true = (rw (rounds, found) at h) in cc
        | inr passed ↦ elim (ℕ_discrete i 0) [
          | yes z ↦
              let here : at + i ≡ at = omega arith in
              rw here (
                is_witness-Fermat (random rand at (p - 1)) p big (random-lt (rand at) p big) small
                  passed)
          | no ne ↦
              let later : at + i ≡ at + 1 + (i - 1) = omega arith in
              rw later (
                rounds-Fermat n p (at + 1) big small (rw (rounds, passed) at h) (i - 1)
                  (omega arith))
        ]
      ]

  is_prime-Plausible :
      (p at : ℕ) → 2 ≤ p → p ≤ largest_modulus → (is_prime rand p at).0 ≡ true → Plausible p
  unfolding is_prime is_miller_rabin_prime
  is_prime-Plausible p at big small h = elim (Bool-cases (has_easy_factors p)) [
    | inl factor ↦ let clash : false ≡ true = (rw factor at h) in cc
    | inr none_found ↦ record {
      no_factor = none_found;
      at = at;
      fermat = rounds-Fermat 20 p at big small (rw none_found at h);
    }
  ]

  search_up-found :
      (fuel src at : ℕ)
      → (is_prime rand src at).0 ≡ true
      → search_up rand (suc fuel) src at ≡ some src
  unfolding search_up
  search_up-found fuel src at e = rw e refl

  search_up-next :
      (fuel src at : ℕ)
      → src + 2 < word
      → (is_prime rand src at).0 ≡ false
      → search_up rand (suc fuel) src at ≡ search_up rand fuel (src + 2) (is_prime rand src at).1
  unfolding search_up
  search_up-next fuel src at small e =
      let wraps : (src + 2) % word ≡ src + 2 = omega arith in
      rw e (ap (λ (t : ℕ). search_up rand fuel t (is_prime rand src at).1) wraps)

  search_up-Plausible :
      (fuel src k at : ℕ)
      → 2 ≤ src
      → src % 2 ≡ 1
      → src + 2 * k ≤ largest_modulus
      → ((at : ℕ) → (is_prime rand (src + 2 * k) at).0 ≡ true)
      → k < fuel
      → (p : ℕ) × (search_up rand fuel src at ≡ some p)
        × (src ≤ p)
        × (p ≤ src + 2 * k)
        × (p % 2 ≡ 1)
        × Plausible p
  search_up-Plausible zero src k at big odd small passes few = absurd (omega arith)
  search_up-Plausible (suc fuel) src k at big odd small passes few =
      elim (Bool-cases (is_prime rand src at).0) [
        | inl found ↦ (
          src,
          search_up-found fuel src at found,
          omega arith,
          omega arith,
          odd,
          is_prime-Plausible src at big (omega arith) found,
        )
        | inr composite ↦ elim (ℕ_discrete k 0) [
          | yes z ↦
              let here : src + 2 * k ≡ src = omega arith in
              let clash : true ≡ false = sym ((rw here at passes) at) ∙ composite in cc
          | no more ↦
              let next = (is_prime rand src at).1 in
              let src' : ℕ = src + 2 in
              let same : src' + 2 * (k - 1) ≡ src + 2 * k = omega arith in
              let (p, e, lo, hi, odd', ok) =
                search_up-Plausible fuel src' (k - 1) next (omega arith) (omega arith) (omega arith)
                  (rw same passes) (omega arith) in
              (
                p,
                search_up-next fuel src at (omega arith) composite ∙ e,
                omega arith,
                omega arith,
                odd',
                ok,
              )
        ]
      ]

  -- Let an odd number up to 3037000500 pass the test with any draws, and let the search start at 2 or above,
  -- not above that number, with a round for each odd number in between. Then `bdd_prime_gte` returns
  -- an odd number between the two that has none of the factors tried first, and of which Fermat's
  -- theorem holds for twenty bases drawn in a row.
  pub bdd_prime_gte-Plausible :
      (fuel src q at : ℕ)
      → 2 ≤ src
      → src ≤ q
      → q ≤ largest_modulus
      → q % 2 ≡ 1
      → ((at : ℕ) → (is_prime rand q at).0 ≡ true)
      → q < src + 2 * fuel
      → (p : ℕ) × (bdd_prime_gte rand fuel src at ≡ some p)
        × (src ≤ p)
        × (p ≤ q)
        × (p % 2 ≡ 1)
        × Plausible p
  unfolding bdd_prime_gte
  bdd_prime_gte-Plausible fuel src q at big le small odd passes few =
      elim (Bool-cases (src % 2 == 0)) [
        | inl even ↦
            let even' : src % 2 ≡ 0 = ground arith in
            let k : ℕ = (q - src) / 2 in
            let there : src + 1 + 2 * k ≡ q = omega arith in
            let (p, e, lo, hi, odd', ok) =
              search_up-Plausible fuel (src + 1) k at (omega arith) (omega arith) (omega arith)
                (rw there passes) (omega arith) in
            (p, rw even e, omega arith, omega arith, odd', ok)
        | inr odd_src ↦
            let is_odd : src % 2 ≡ 1 = ground arith in
            let k : ℕ = (q - src) / 2 in
            let there : src + 2 * k ≡ q = omega arith in
            let (p, e, lo, hi, odd', ok) =
              search_up-Plausible fuel src k at (omega arith) is_odd (omega arith) (rw there passes)
                (omega arith) in
            (p, rw odd_src e, omega arith, omega arith, odd', ok)
      ]
