-- ===== src/Start/Fresh.antt =====
-- The table that `bdd_init` of src/kernel.c leaves: all nodes but the constants are free.
use mo_to_buddy.Prelude.{
  ℕ, zero, suc, ◌+◌, ◌-◌, ◌≤◌, ◌<◌, ◌≡◌, refl, inl, inr, false, true, List, [], ◌∷◌, length, ◌==◌,
  if◌then◌else◌, Among, arith, ℕ_discrete,
}
use mo_to_buddy.Cache.{Entry, init}
use mo_to_buddy.Kernel.{Kernel, Nodes, invalid}
use mo_to_buddy.Kernel.Chain.{Chain}
use mo_to_buddy.Kernel.Partition.{Partition}
use mo_to_buddy.Kernel.WellFormed.{Live, Free, WellFormed}
use mo_to_buddy.Op.Ready.{Sound, CachesSound}
use mo_to_buddy.Start.{initial_nodes, operator_init, initial}

-- The numbers from `a` on.
up : ℕ → ℕ → List ℕ
up a zero = []
up a (suc n) = a ∷ up (a + 1) n

Among-up : (x a n : ℕ) → Among x (up a n) → (a ≤ x) × (x < a + n)
unfolding up
Among-up x a zero m = absurd m
Among-up x a (suc n) (inl e) = (omega arith, omega arith)
Among-up x a (suc n) (inr m) = let (lo, hi) = Among-up x (a + 1) n m in (omega arith, omega arith)

up-Among : (x a n : ℕ) → a ≤ x → x < a + n → Among x (up a n)
unfolding up
up-Among x a zero lo hi = absurd (omega arith)
up-Among x a (suc n) lo hi = elim (ℕ_discrete x a) [
  | yes e ↦ inl e
  | no ne ↦ inr (up-Among x (a + 1) n (omega arith) (omega arith))
]

length-up : (a n : ℕ) → length (up a n) ≡ n
unfolding up
length-up a zero = refl
length-up a (suc n) = let e = length-up (a + 1) n in omega arith

module _ (size : ℕ) where
  nodes : Nodes
  nodes = initial_nodes size

  next_node : (n : ℕ) → (nodes n).next ≡ (if n + 1 == size then 0 else n + 1)
  unfolding initial_nodes nodes
  next_node n = ground arith

  head_node : (n : ℕ) → (nodes n).hash ≡ 0
  unfolding initial_nodes nodes
  head_node n = ground arith

  free_node :
      (n : ℕ)
      → 1 < n
      → ((nodes n).low ≡ invalid) × ((nodes n).refcou ≡ 0) × ((nodes n).mark ≡ false)
  unfolding initial_nodes nodes
  free_node n h = ground arith

  Chain-up : (a n : ℕ) → 0 < a → a + n ≡ size → Chain nodes (if a == size then 0 else a) (up a n)
  unfolding up
  Chain-up a zero pos e = ground arith
  Chain-up a (suc n) pos e =
      let rest = Chain-up (a + 1) n (omega arith) (omega arith) in
      (
        ground arith,
        λ z. absurd (omega arith),
        λ m. let (lo, hi) = Among-up a (a + 1) n m in absurd (omega arith),
        rw (next_node a) rest,
      )

  initial-Partition :
      3 ≤ size → Partition size nodes (Live size nodes) (Free size nodes) 2 (size - 2)
  initial-Partition big = record {
    buckets = λ b lt. record {
      items = [];
      chain = head_node b;
      sound = λ n m. absurd m;
      full = λ n l e. absurd (l.2 ((free_node n l.0).0));
    };
    free = record {
      items = up 2 (size - 2);
      chain =
          let test : (2 == size) ≡ false = ground arith in
          rw test at (Chain-up 2 (size - 2) (omega arith) (omega arith));
      sound = λ n m.
          let (lo, hi) = Among-up n 2 (size - 2) m in
          (omega arith, omega arith, (free_node n (omega arith)).0);
      full = λ n f. up-Among n 2 (size - 2) (omega (arith, f.0)) (omega (arith, f.1));
      count = let e = length-up 2 (size - 2) in omega arith;
    };
  }

init-Sound : {P : Entry → Type 0} (n : ℕ) → Sound P (init n)
unfolding init
init-Sound n = record { past = λ i. omega arith; entries = λ i e. absurd (omega arith) }

pub operator_init-CachesSound : (s : Kernel) (n : ℕ) → CachesSound s (operator_init n)
unfolding operator_init
operator_init-CachesSound s n = record {
  apply = init-Sound n;
  ite = init-Sound n;
  quant = init-Sound n;
}

pub initial-WellFormed :
    (size cachesize : ℕ) (s : Kernel)
    → s.refstack ≡ []
    → s.check_same_children ≡ true
    → 3 ≤ size
    → size < invalid
    → WellFormed 0 (initial size cachesize s)
unfolding nodes
initial-WellFormed size cachesize s empty same big fits = record {
  size_min = omega arith;
  size_max = fits;
  top_max = omega arith;
  top_varnum = omega arith;
  live = λ n l. absurd (l.2 ((free_node size n l.0).0));
  unique = λ m n l. absurd (l.2 ((free_node size m l.0).0));
  clean = λ n h lt. (free_node size n h).2;
  stacked = λ n m. absurd (rw empty at m);
  counted = λ n h lt r. absurd (omega (arith, (free_node size n h).1));
  part = initial-Partition size big;
  same_children = same;
}
