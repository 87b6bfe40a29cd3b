-- ===== src/Kernel/Makenode/Resize.antt =====
-- `bdd_noderesize(1)` of src/kernel.c: a larger table with every node where its hash belongs.
pub mod Table
use mo_to_buddy.Prelude.{
  ℕ, ◌+◌, ◌-◌, ◌*◌, ◌%◌, ◌≤◌, ◌<◌, ◌≡◌, ◌≢◌, refl, sym, ◌∙◌, subst, inl, inr, true, false, ◌&&◌,
  ltb, leb, arith, Bool-cases,
}
use mo_to_buddy.Kernel.{Kernel, invalid}
use mo_to_buddy.Kernel.WellFormed.{Live, WellFormed}
use mo_to_buddy.Kernel.Protected.{SameNode, Keeps, Keeps-refl}
use mo_to_buddy.Kernel.Gbc.{rehash_all}
use mo_to_buddy.Kernel.Makenode.Resize.Table.{
  base_nodes, rehash_all-resized, resized_old, resized-WellFormed, resized-Keeps,
}
use mo_to_buddy.Kernel.Makenode.{int_lt, wanted_size, noderesize}

abbrev pub IsPrime : ℕ → Type 0
IsPrime p = (2 ≤ p) × ((d : ℕ) → 1 < d → d < p → p % d ≢ 0)

-- What the kernel relies on: `bdd_prime_lte` finds the largest prime up to its argument.
abbrev pub FindsPrimes : (ℕ → ℕ) → Type 0
FindsPrimes prime_lte =
    (m : ℕ)
    → 3 ≤ m
    → IsPrime (prime_lte m) × (prime_lte m ≤ m) × ((p : ℕ) → IsPrime p → p ≤ m → p ≤ prime_lte m)

-- A largest table size is set, the table is within it, and no size leaves the range of an int.
pub record Limits (s : Kernel) : Type 0 where
  pub fits : s.maxnodesize < 1073741824
  pub step : s.maxnodeincrease < 1073741824
  pub within : s.nodesize ≤ s.maxnodesize
  pub prime : IsPrime s.nodesize
  pub odd : 3 ≤ s.nodesize

int_lt-small : (a b : ℕ) → a < 2147483648 → b < 2147483648 → int_lt a b ≡ ltb a b
unfolding int_lt
int_lt-small a b h k =
    let (x, y) : ((a + 2147483648) % 4294967296 ≡ a + 2147483648)
        × ((b + 2147483648) % 4294967296 ≡ b + 2147483648) =
      (omega arith, omega arith) in
    rw (x, y) (ground arith)

wanted_bounds :
    (s : Kernel) → Limits s → (s.nodesize ≤ wanted_size s) × (wanted_size s ≤ s.maxnodesize)
unfolding wanted_size
wanted_bounds s l =
    let size : s.nodesize < 1073741824 = omega (arith, l.fits, l.within) in
    let doubled : s.nodesize * 2 % 4294967296 ≡ s.nodesize * 2 = omega arith in
    let sum : (s.nodesize + s.maxnodeincrease) % 4294967296 ≡ s.nodesize + s.maxnodeincrease =
      omega (arith, l.step) in
    rw (doubled, sum)
      (ground (
        arith,
        l.within,
        l.odd,
        int_lt-small (s.nodesize + s.maxnodeincrease) (s.nodesize * 2) (omega (arith, l.step))
            (omega arith),
        int_lt-small s.maxnodesize (s.nodesize + s.maxnodeincrease) (omega (arith, l.fits))
            (omega (arith, l.step)),
        int_lt-small s.maxnodesize (s.nodesize * 2) (omega (arith, l.fits)) (omega arith),
      ))

-- What growing the table does: it stays well-formed and within its limits, protected nodes are
-- unchanged, and so is all of the state but the table and the flag `bddresized`.
pub record Resized (top : ℕ) (s s' : Kernel) : Type 0 where
  pub well : WellFormed top s'
  pub keeps : Keeps s s'
  pub limits : Limits s'
  pub old :
      (n : ℕ)
      → Live s'.nodesize s'.nodes n
      → Live s.nodesize s.nodes n × SameNode (s.nodes n) (s'.nodes n)
  pub rest : s' ≡ record s {
    nodes = s'.nodes;
    nodesize = s'.nodesize;
    freepos = s'.freepos;
    freenum = s'.freenum;
    terminals = s'.terminals;
    resized = s'.resized;
  }

noderesize_max :
    (prime_lte : ℕ → ℕ) (s : Kernel)
    → (leb s.maxnodesize s.nodesize && ltb 0 s.maxnodesize) ≡ true
    → (noderesize prime_lte true s).1 ≡ s
unfolding noderesize
noderesize_max prime_lte s e = rw e refl

noderesize_grown :
    (prime_lte : ℕ → ℕ) (s : Kernel)
    → (leb s.maxnodesize s.nodesize && ltb 0 s.maxnodesize) ≡ false
    → (noderesize prime_lte true s).1 ≡ (
        let newsize = prime_lte (wanted_size s) in
        record (rehash_all false (record s {
          nodes = base_nodes s newsize;
          nodesize = newsize;
          freepos = s.nodesize;
          freenum = s.freenum + (newsize - s.nodesize);
        })) { resized = true })
unfolding noderesize base_nodes
noderesize_grown prime_lte s e = rw e refl

-- With `bdd_prime_lte` finding the largest prime up to its argument, growing a well-formed table
-- within its limits leaves it so, keeps its protected nodes, and brings no node into use.
pub noderesize-Resized :
    (prime_lte : ℕ → ℕ) {top : ℕ} {s : Kernel}
    → FindsPrimes prime_lte
    → WellFormed top s
    → Limits s
    → Resized top s (noderesize prime_lte true s).1
noderesize-Resized prime_lte {top} {s} primes w l =
    elim (Bool-cases (leb s.maxnodesize s.nodesize && ltb 0 s.maxnodesize)) [
      | inl e ↦ subst (Resized top s) (sym (noderesize_max prime_lte s e)) (record {
        well = w;
        keeps = Keeps-refl s;
        limits = l;
        old = λ n o. (o, record { level = refl; low = refl; high = refl; refcou = refl });
        rest = refl;
      })
      | inr e ↦
          let (lo, hi) = wanted_bounds s l in
          let (prime, le, largest) = primes (wanted_size s) (omega (arith, l.odd)) in
          let newsize = prime_lte (wanted_size s) in
          let grows : s.nodesize ≤ newsize = largest s.nodesize l.prime lo in
          let fits : newsize < invalid = omega (arith, l.fits) in
          subst (Resized top s)
            (sym (noderesize_grown prime_lte s e ∙ rehash_all-resized w newsize grows fits))
            (record {
              well = resized-WellFormed w newsize grows fits;
              keeps = resized-Keeps w newsize grows fits;
              limits = record {
                fits = l.fits;
                step = l.step;
                within = omega arith;
                prime = prime;
                odd = omega (arith, l.odd);
              };
              old = resized_old w newsize grows fits;
              rest = refl;
            })
    ]
