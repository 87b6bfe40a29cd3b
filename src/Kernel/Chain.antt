-- ===== src/Kernel/Chain.antt =====
-- Linked lists of nodes: the buckets of the unique table and the free list of src/kernel.c, and the
-- walk along a bucket in `bdd_makenode`.
use mo_to_buddy.Prelude.{
  ℕ, zero, suc, ◌≤◌, ◌<◌, ◌≡◌, ◌≢◌, refl, sym, subst, ◌⊎◌, inl, inr, Bool, true, false, ◌&&◌, List,
  [], ◌∷◌, ◌==◌, if◌then◌else◌, length, Among, arith, Bool-cases,
}
use mathlib.Core.Logic.{⊎_elim}
use mo_to_buddy.Kernel.{Nodes}

-- From `p` the `next` links lead through the distinct nodes `xs` to 0.
abbrev pub Chain : Nodes → ℕ → List ℕ → Type 0
Chain nodes p [] = p ≡ 0
Chain nodes p (x ∷ xs) = (p ≡ x) × (x ≢ 0) × (¬ Among x xs) × Chain nodes (nodes x).next xs

pub Chain-frame :
    (nodes nodes' : Nodes) (xs : List ℕ) (p : ℕ)
    → Chain nodes p xs
    → ((n : ℕ) → Among n xs → (nodes' n).next ≡ (nodes n).next)
    → Chain nodes' p xs
Chain-frame nodes nodes' [] p c same = c
Chain-frame nodes nodes' (x ∷ xs) p (e, ne, out, c) same = (
  e,
  ne,
  out,
  Chain-frame nodes nodes' xs (nodes' x).next
      (subst (λ q. Chain nodes q xs) (sym (same x (inl refl))) c) (λ n m. same n (inr m)),
)

pub Chain-ne_zero : (nodes : Nodes) (xs : List ℕ) (p : ℕ) → Chain nodes p xs → ¬ Among 0 xs
Chain-ne_zero nodes [] p c m = m
Chain-ne_zero nodes (x ∷ xs) p (e, ne, out, c) (inl h) = ne (sym h)
Chain-ne_zero nodes (x ∷ xs) p (e, ne, out, c) (inr m) = Chain-ne_zero nodes xs (nodes x).next c m

-- The numbers of `xs` other than `a`.
erase : ℕ → List ℕ → List ℕ
erase a [] = []
erase a (x ∷ xs) = if x == a then erase a xs else x ∷ erase a xs

abbrev Distinct : List ℕ → Type 0
Distinct [] = Unit
Distinct (x ∷ xs) = (¬ Among x xs) × Distinct xs

Among-erase : (a b : ℕ) (xs : List ℕ) → Among b (erase a xs) → Among b xs × (b ≢ a)
unfolding erase
Among-erase a b [] m = absurd m
Among-erase a b (x ∷ xs) m = ground (arith, Among-erase a b xs)

Distinct-erase : (a : ℕ) (xs : List ℕ) → Distinct xs → Distinct (erase a xs)
unfolding erase
Distinct-erase a [] d = tt
Distinct-erase a (x ∷ xs) (out, d) = elim (Bool-cases (x == a)) [
  | inl hit ↦ rw hit (Distinct-erase a xs d)
  | inr miss ↦ rw miss (λ m. out (Among-erase a x xs m).0, Distinct-erase a xs d)
]

erase_out : (a : ℕ) (xs : List ℕ) → ¬ Among a xs → length (erase a xs) ≡ length xs
unfolding erase
erase_out a [] out = refl
erase_out a (x ∷ xs) out = ground (arith, erase_out a xs)

length-erase : (a : ℕ) (xs : List ℕ) → Distinct xs → length xs ≤ suc (length (erase a xs))
unfolding erase
length-erase a [] d = omega arith
length-erase a (x ∷ xs) (out, d) = ground (arith, length-erase a xs d, erase_out a xs)

-- Distinct numbers below `n` are at most `n`.
pigeonhole : (n : ℕ) (xs : List ℕ) → Distinct xs → ((a : ℕ) → Among a xs → a < n) → length xs ≤ n
pigeonhole zero [] d h = omega arith
pigeonhole zero (x ∷ xs) d h = absurd (omega (arith, h x (inl refl)))
pigeonhole (suc n) xs d h = omega (
  arith,
  length-erase n xs d,
  pigeonhole n (erase n xs) (Distinct-erase n xs d)
      (λ a m. let (i, ne) = Among-erase n a xs m in omega (arith, h a i)),
)

Chain-Distinct : (nodes : Nodes) (xs : List ℕ) (p : ℕ) → Chain nodes p xs → Distinct xs
Chain-Distinct nodes [] p c = tt
Chain-Distinct nodes (x ∷ xs) p (e, ne, out, c) = (out, Chain-Distinct nodes xs (nodes x).next c)

-- A chain of nodes below `size` has at most `size` of them.
pub Chain-length :
    (nodes : Nodes) (size : ℕ) (xs : List ℕ) (p : ℕ)
    → Chain nodes p xs
    → ((a : ℕ) → Among a xs → a < size)
    → length xs ≤ size
Chain-length nodes size xs p c h = pigeonhole size xs (Chain-Distinct nodes xs p c) h

pub data Walk : Type 0 where
  found : ℕ → Walk
  missed unfinished : Walk

-- The test of the loop in `bdd_makenode`.
abbrev pub is_node : Nodes → ℕ → ℕ → ℕ → ℕ → Bool
is_node nodes level low high n =
    ((nodes n).level == level) && ((nodes n).low == low) && ((nodes n).high == high)

-- `while (res != 0) { if (this node) return res; res = bddnodes[res].next; }`
unfoldable pub find : ℕ → Nodes → ℕ → ℕ → ℕ → ℕ → Walk
find zero nodes level low high res = unfinished
find (suc fuel) nodes level low high res =
    let rest = find fuel nodes level low high (nodes res).next in
    if res == 0 then missed else if is_node nodes level low high res then found res else rest

-- With fuel above the length of a chain, the walk along it finds a node of the chain with the level
-- and the children asked for, or reports a miss where no node of the chain has them.
pub find-Chain :
    (fuel : ℕ) (nodes : Nodes) (level low high p : ℕ) (xs : List ℕ)
    → Chain nodes p xs
    → length xs < fuel
    → ((n : ℕ) × (find fuel nodes level low high p ≡ found n)
        × Among n xs
        × (is_node nodes level low high n ≡ true))
      ⊎ ((find fuel nodes level low high p ≡ missed)
          × ((n : ℕ) → Among n xs → is_node nodes level low high n ≡ false))
unfolding find
find-Chain zero nodes level low high p xs c h = absurd (omega arith)
find-Chain (suc fuel) nodes level low high p [] c h = inr (rw c refl, λ n m. absurd m)
find-Chain (suc fuel) nodes level low high p (x ∷ xs) (e, ne, out, c) h =
    elim (Bool-cases (is_node nodes level low high x)) [
      | inl hit ↦ inl (x, ground arith, inl refl, hit)
      | inr miss ↦ elim (find-Chain fuel nodes level low high (nodes x).next xs c (omega arith)) [
        | inl (n, f, m, t) ↦ inl (n, ground arith, inr m, t)
        | inr (f, none_fits) ↦
            inr (ground arith, λ n m. ⊎_elim (λ (e : n ≡ x). rw e miss) (none_fits n) m)
      ]
    ]
