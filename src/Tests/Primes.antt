-- ===== src/Tests/Primes.antt =====
-- A search for primes by trial division, which stands for `bdd_prime_lte` in the tests.
use mo_to_buddy.Prelude.{
  ℕ, zero, suc, ◌%◌, ◌≤◌, ◌<◌, ◌≡◌, ◌≢◌, subst, ◌⊎◌, inl, inr, arith, dec_lt, ℕ_discrete,
}
use mo_to_buddy.Kernel.Makenode.Resize.{IsPrime, FindsPrimes}

-- The divisors of `p` below `k`.
search :
    (k p : ℕ) → ((d : ℕ) → 1 < d → d < k → p % d ≢ 0) ⊎ ((d : ℕ) × (1 < d) × (d < k) × (p % d ≡ 0))
search zero p = inl (λ d h lt. absurd (omega arith))
search (suc k) p = elim (search k p) [
  | inr (d, h, lt, e) ↦ inr (d, h, omega arith, e)
  | inl none_below ↦ elim (dec_lt 1 k) [
    | no small ↦ inl (λ d h lt. absurd (omega arith))
    | yes big ↦ elim (ℕ_discrete (p % k) 0) [
      | yes e ↦ inr (k, big, omega arith, e)
      | no ne ↦ inl (λ d h lt. elim (ℕ_discrete d k) [
        | yes same ↦ subst (λ i. p % i ≢ 0) (omega arith) ne
        | no other ↦ none_below d h (omega arith)
      ])
    ]
  ]
]

decide-IsPrime : (p : ℕ) → IsPrime p ⊎ (¬ IsPrime p)
decide-IsPrime p = elim (dec_lt p 2) [
  | yes small ↦ inr (λ q. absurd (omega (arith, q.0)))
  | no big ↦ elim (search p p) [
    | inl prime ↦ inl (omega arith, prime)
    | inr (d, h, lt, e) ↦ inr (λ q. q.1 d h lt e)
  ]
]

-- The largest prime up to `m`, if there is one.
largest : (m : ℕ) → (p : ℕ) × (2 ≤ m → IsPrime p × (p ≤ m) × ((q : ℕ) → IsPrime q → q ≤ m → q ≤ p))
largest zero = (0, λ h. absurd (omega arith))
largest (suc m) = elim (decide-IsPrime (suc m)) [
  | inl prime ↦ (suc m, λ h. (prime, omega arith, λ q pq le. le))
  | inr no_prime ↦ let (p, rest) = largest m in (p, λ h. weaken m p no_prime rest h)
]
  where
    weaken :
        (m p : ℕ)
        → ¬ IsPrime (suc m)
        → (2 ≤ m → IsPrime p × (p ≤ m) × ((q : ℕ) → IsPrime q → q ≤ m → q ≤ p))
        → 2 ≤ suc m
        → IsPrime p × (p ≤ suc m) × ((q : ℕ) → IsPrime q → q ≤ suc m → q ≤ p)
    weaken m p no_prime rest h = elim (dec_lt 1 m) [
      | no one ↦ absurd (no_prime (h, λ d lo hi. absurd (omega arith)))
      | yes more ↦
          let (prime, le, top) = rest more in
          (
            prime,
            omega arith,
            λ q pq lq. elim (ℕ_discrete q (suc m)) [
              | yes e ↦ absurd (no_prime (subst IsPrime e pq))
              | no ne ↦ top q pq (omega arith)
            ],
          )
    ]

pub largest_prime : ℕ → ℕ
largest_prime m = (largest m).0

pub largest_prime-FindsPrimes : FindsPrimes largest_prime
unfolding largest_prime
largest_prime-FindsPrimes m h = (largest m).1 (omega arith)

pub five-IsPrime : IsPrime 5
five-IsPrime = elim (decide-IsPrime 5) [
  | inl p ↦ p
  | inr no_prime ↦ absurd (no_prime (omega arith, divides))
]
  where
    divides : (d : ℕ) → 1 < d → d < 5 → 5 % d ≢ 0
    divides d h lt = elim (ℕ_discrete d 2) [
      | yes e ↦ rw e (omega arith)
      | no a ↦ elim (ℕ_discrete d 3) [
        | yes e ↦ rw e (omega arith)
        | no b ↦ rw (four d h lt a b) (omega arith)
      ]
    ]
      where
        four : (d : ℕ) → 1 < d → d < 5 → d ≢ 2 → d ≢ 3 → d ≡ 4
        four d h lt a b = omega arith
