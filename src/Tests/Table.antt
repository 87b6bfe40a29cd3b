-- ===== src/Tests/Table.antt =====
-- A table of five slots: x1 at node 2, and an unreferenced conjunction of x0 and x1 at node 3.
use mo_to_buddy.Prelude.{
  ℕ, ◌<◌, ◌≡◌, ◌≢◌, refl, sym, subst, inl, inr, true, false, [], ◌∷◌, none, ◌==◌, if◌then◌else◌,
  Among, arith, ℕ_discrete, ◌∙◌,
}
use mo_to_buddy.Hash.{hash_node, hash_range}
use mo_to_buddy.Cache.{Cache, blank}
use mo_to_buddy.Terminal.{unset}
use mo_to_buddy.Kernel.{Node, Nodes, Kernel, invalid}
use mo_to_buddy.Kernel.Partition.{home, Bucket, FreeList}
use mo_to_buddy.Kernel.WellFormed.{Live, Free, Ok, NodeOk, WellFormed}

abbrev pub cell : ℕ → ℕ → ℕ → ℕ → ℕ → ℕ → Node
cell l a b r h nx = record {
  high = b;
  low = a;
  refcou = r;
  level = l;
  mark = false;
  hash = h;
  next = nx;
}

abbrev pub five : Nodes
five n =
    if n == 0
    then cell 2 0 0 1023 0 0
    else if n == 1
    then cell 2 1 1 1023 0 0
    else if n == 2
    then cell 1 0 1 0 3 0
    else if n == 3
    then cell 0 0 2 0 0 0
    else cell 0 invalid 0 0 2 0

abbrev no_cache : Cache
no_cache = record { table = λ i. blank; tablesize = 7; current_generation = 1 }

abbrev pub table : Kernel
table = record {
  nodes = five;
  nodesize = 5;
  maxnodesize = 100;
  maxnodeincrease = 50;
  minfreenodes = 20;
  freepos = 4;
  freenum = 1;
  produced = 2;
  varnum = 2;
  level2var = λ l. l;
  varset = λ i. 0;
  refstack = 2 ∷ [];
  refslots = 8;
  errorcond = 0;
  resized = false;
  running = true;
  check_same_children = true;
  usednodes_nextreorder = 5;
  gbcollectnum = 0;
  reorder = record { method = 0; has_vartree = false; times = 0; disabled = false };
  caches = record {
    apply = no_cache;
    ite = no_cache;
    quant = no_cache;
    appex = no_cache;
    replace = no_cache;
    misc = no_cache;
    mtbdd_apply = no_cache;
    mtbdd_ite = no_cache;
    mtbdd_operation = no_cache;
  };
  terminals = record {
    domain = unset;
    value = λ i. 0;
    top = [];
    used = 0;
    max_size = 0;
    type_number = 0;
    hashfun = λ i. none;
  };
}

-- The three slots that may hold a node.
slots : (P : ℕ → Type 0) → P 2 → P 3 → P 4 → (n : ℕ) → 1 < n → n < 5 → P n
slots P p2 p3 p4 n h lt = elim (ℕ_discrete n 2) [
  | yes e ↦ subst P (sym e) p2
  | no a ↦ elim (ℕ_discrete n 3) [ yes e ↦ subst P (sym e) p3 | no b ↦ subst P (omega arith) p4 ]
]

-- Of these, 2 and 3 are in use.
abbrev Alive : ℕ → Type 0
Alive = Live 5 five

alive : (P : ℕ → Type 0) → P 2 → P 3 → (n : ℕ) → Alive n → P n
alive P p2 p3 n (h, lt, ne) =
    slots (λ i. (five i).low ≢ invalid → P i) (λ u. p2) (λ u. p3) (λ u. absurd (u refl)) n h lt ne

free_slot : (P : ℕ → Type 0) → P 4 → (n : ℕ) → Free 5 five n → P n
free_slot P p4 n (h, lt, e) =
    slots (λ i. (five i).low ≡ invalid → P i) (λ u. absurd (omega (arith, u)))
      (λ u. absurd (omega (arith, u))) (λ u. p4) n h lt e

pub live_two : Alive 2
live_two = (omega arith, omega arith, λ e. absurd (omega (arith, e)))

pub live_three : Alive 3
live_three = (omega arith, omega arith, λ e. absurd (omega (arith, e)))

home_two : home 5 five 2 ≡ 4
unfolding hash_node hash_range
home_two = refl

home_three : home 5 five 3 ≡ 2
unfolding hash_node hash_range
home_three = refl

nodes_ok : (n : ℕ) → Alive n → NodeOk 2 5 five n
nodes_ok =
    alive (NodeOk 2 5 five)
      (record {
        level = omega arith;
        low_ok = inl (omega arith);
        high_ok = inl (omega arith);
        low_beyond = inl (omega arith);
        high_beyond = inl (omega arith);
        differ = λ e. absurd (omega (arith, e));
      })
      (record {
        level = omega arith;
        low_ok = inl (omega arith);
        high_ok = inr live_two;
        low_beyond = inl (omega arith);
        high_beyond = inr (omega arith);
        differ = λ e. absurd (omega (arith, e));
      })

unique_levels : (m n : ℕ) → Alive m → Alive n → (five m).level ≡ (five n).level → m ≡ n
unique_levels m n lm ln =
    alive (λ i. (five i).level ≡ (five n).level → i ≡ n)
      (alive (λ j. 1 ≡ (five j).level → 2 ≡ j) (λ e. refl) (λ e. absurd (omega (arith, e))) n ln)
      (alive (λ j. 0 ≡ (five j).level → 3 ≡ j) (λ e. absurd (omega (arith, e))) (λ e. refl) n ln) m
      lm

empty-Bucket : (b : ℕ) → (five b).hash ≡ 0 → b ≢ 4 → b ≢ 2 → Bucket 5 five Alive b
empty-Bucket b e ne4 ne2 = record {
  items = [];
  chain = e;
  sound = λ n m. absurd m;
  full =
      alive (λ i. home 5 five i ≡ b → ⊥) (λ h. ne4 (sym h ∙ home_two))
        (λ h. ne2 (sym h ∙ home_three));
}

Bucket-four : Bucket 5 five Alive 4
Bucket-four = record {
  items = 2 ∷ [];
  chain = (refl, omega arith, λ m. m, refl);
  sound = λ n m. elim m [
    | inl e ↦ subst (λ i. Alive i × (home 5 five i ≡ 4)) (sym e) (live_two, home_two)
    | inr m' ↦ absurd m'
  ];
  full =
      alive (λ i. home 5 five i ≡ 4 → Among i (2 ∷ [])) (λ h. inl refl)
        (λ h. absurd (omega (arith, h, home_three)));
}

Bucket-two : Bucket 5 five Alive 2
Bucket-two = record {
  items = 3 ∷ [];
  chain = (refl, omega arith, λ m. m, refl);
  sound = λ n m. elim m [
    | inl e ↦ subst (λ i. Alive i × (home 5 five i ≡ 2)) (sym e) (live_three, home_three)
    | inr m' ↦ absurd m'
  ];
  full =
      alive (λ i. home 5 five i ≡ 2 → Among i (3 ∷ [])) (λ h. absurd (omega (arith, h, home_two)))
        (λ h. inl refl);
}

buckets : (b : ℕ) → b < 5 → Bucket 5 five Alive b
buckets b lt = elim (ℕ_discrete b 4) [
  | yes e ↦ subst (Bucket 5 five Alive) (sym e) Bucket-four
  | no ne4 ↦ elim (ℕ_discrete b 2) [
    | yes e ↦ subst (Bucket 5 five Alive) (sym e) Bucket-two
    | no ne2 ↦ empty-Bucket b (no_head b lt ne4 ne2) ne4 ne2
  ]
]
  where
    no_head : (b : ℕ) → b < 5 → b ≢ 4 → b ≢ 2 → (five b).hash ≡ 0
    no_head b lt ne4 ne2 = ground arith

free_list : FreeList five (Free 5 five) 4 1
free_list = record {
  items = 4 ∷ [];
  chain = (refl, omega arith, λ m. m, refl);
  sound = λ n m. elim m [
    | inl e ↦ subst (Free 5 five) (sym e) (omega arith, omega arith, refl)
    | inr m' ↦ absurd m'
  ];
  full = free_slot (λ i. Among i (4 ∷ [])) (inl refl);
  count = refl;
}

pub table-WellFormed : WellFormed 2 table
table-WellFormed = record {
  size_min = omega arith;
  size_max = omega arith;
  top_max = omega arith;
  top_varnum = omega arith;
  live = nodes_ok;
  unique = λ m n lm ln e a b. unique_levels m n lm ln e;
  clean = slots (λ i. (five i).mark ≡ false) refl refl refl;
  stacked = λ n m. elim m [ inl e ↦ subst (Ok 5 five) (sym e) (inr live_two) | inr m' ↦ absurd m' ];
  counted =
      slots (λ i. 0 < (five i).refcou → (five i).low ≢ invalid) (λ r. absurd (omega arith))
        (λ r. absurd (omega arith)) (λ r. absurd (omega arith));
  part = record { buckets = buckets; free = free_list };
  same_children = refl;
}
