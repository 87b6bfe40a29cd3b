-- ===== src/Start/Declared.antt =====
-- `bdd_init` and `bdd_setvarnum` of src/kernel.c bring the package into a state in which operators may
-- be called and the variables stand for themselves.
use mo_to_buddy.Prelude.{
  [], ℕ, ◌+◌, ◌-◌, ◌*◌, ◌≤◌, ◌<◌, ◌≡◌, ◌≢◌, refl, ◌∙◌, ◌⊎◌, inl, inr, Bool, true, false, not, ◌==◌,
  ◌||◌, ltb, leb, if◌then◌else◌, arith, Bool-cases,
}
use mo_to_buddy.Tree.{leaf, node}
use mo_to_buddy.Cache.{reset}
use mo_to_buddy.Terminal.{maxlevel}
use mo_to_buddy.Kernel.{Kernel, and_then, done}
use mo_to_buddy.Kernel.Settings.{nat, value, set_max_node_num, ithvar, nithvar}
use mo_to_buddy.Kernel.Makenode.Resize.{IsPrime, FindsPrimes}
use mo_to_buddy.Represents.{Denotes}
use mo_to_buddy.Session.{Session}
use mo_to_buddy.Start.{
  Tables, bdd_init, initial, initial_tables, Declaration, declared, failed, declare, finish,
  conclude, begun, bdd_setvarnum,
}
use mo_to_buddy.Start.Fresh.{initial-WellFormed, operator_init-CachesSound}
use mo_to_buddy.Start.Growing.{Growing, no_jump, Growing-dress}
use mo_to_buddy.Start.Relevel.{Growing-relevel}
use mo_to_buddy.Start.Declaring.{Turn, declare-Turn}

-- A running package without errors and references, whose variables all have their nodes.
pub record Declared (s : Kernel) : Type 0 where
  pub growing : Growing s.varnum s.refslots s
  pub consts : (n : ℕ) → n < 2 → s.varnum ≤ (s.nodes n).level
  pub room : 2 * s.varnum ≤ s.refslots
  pub clear : s.errorcond ≡ 0

Declared-Session : {s : Kernel} → Declared s → Session s.varnum s []
Declared-Session d = record {
  ready = record {
    well = d.growing.well;
    limits = d.growing.limits;
    no_jump = no_jump d.growing;
    consts = d.consts;
    caches = d.growing.caches;
  };
  running = d.growing.running;
  room = d.room;
  counted = λ n big own. absurd (omega arith);
  truths = λ z. tt;
}

-- Between two sessions let the package of plain BDDs have an empty reference stack, and let
-- `bdd_prime_gte` find for the table a prime from 3 on that is below the size m, with m below 2^30.
-- Then `bdd_init` and `bdd_setmaxnodenum(m)` after it succeed, and leave a running package with a
-- well-formed table within its limits, no variable and no error.
pub bdd_init-Declared :
    (prime_gte : ℕ → ℕ) (initnodesize cs m : ℕ) (t : Tables) (s : Kernel)
    → s.running ≡ false
    → s.refstack ≡ []
    → s.check_same_children ≡ true
    → IsPrime (prime_gte initnodesize)
    → 3 ≤ prime_gte initnodesize
    → prime_gte initnodesize < m
    → m < 1073741824
    → (bdd_init prime_gte initnodesize cs t s
        ≡ (value 0, initial_tables t, initial (prime_gte initnodesize) (prime_gte cs) s))
      × ((set_max_node_num (nat m) (initial (prime_gte initnodesize) (prime_gte cs) s)).0
          ≡ value s.maxnodesize)
      × Declared (set_max_node_num (nat m) (initial (prime_gte initnodesize) (prime_gte cs) s)).1
      × ((set_max_node_num (nat m) (initial (prime_gte initnodesize) (prime_gte cs) s)).1.varnum
          ≡ 0)
unfolding bdd_init set_max_node_num
bdd_init-Declared prime_gte initnodesize cs m t s off empty same prime odd lt fits =
    let size = prime_gte initnodesize in
    let larger : ltb size m ≡ true = ground arith in
    (
      rw off refl,
      rw larger refl,
      rw larger (record {
        growing = record {
          well =
              initial-WellFormed size (prime_gte cs) (record s { maxnodesize = m }) empty same odd
                (omega arith);
          limits = record {
            fits = fits;
            step = omega arith;
            within = omega arith;
            prime = prime;
            odd = odd;
          };
          quiet = refl;
          caches = operator_init-CachesSound _ (prime_gte cs);
          running = refl;
          room = refl;
          named = λ i lt. absurd (omega arith);
        };
        consts = λ n h. omega arith;
        room = omega arith;
        clear = refl;
      }),
      rw larger refl,
    )

module _ (prime_lte : ℕ → ℕ) (primes : FindsPrimes prime_lte) where
  setvarnum_run :
      (num : ℕ) (t : Tables) (s : Kernel)
      → s.running ≡ true
      → s.varnum < num
      → num < maxlevel
      → bdd_setvarnum prime_lte (nat num) t s
        ≡ and_then (declare prime_lte (num - s.varnum) (begun num s)) (conclude s.varnum num t)
  unfolding bdd_setvarnum
  setvarnum_run num t s run more below =
      let within : (ltb num 1 || leb maxlevel num) ≡ false = ground arith in
      let grows : ltb num s.varnum ≡ false = ground arith in
      let other : (num == s.varnum) ≡ false = ground arith in
      rw (bdd_setvarnum, run, within, grows, other) refl

  ended :
      (num : ℕ) (t : Tables) (s s' : Kernel) (fine b : Bool)
      → declare prime_lte (num - s.varnum) (begun num s) ≡ done fine s'
      → fine ≡ b
      → and_then (declare prime_lte (num - s.varnum) (begun num s)) (conclude s.varnum num t)
        ≡ conclude s.varnum num t b s'
  ended num t s s' fine b run e = rw (run, e) refl

  finish-Declared :
      (num oldvarnum : ℕ) (t : Tables) (s : Kernel)
      → Turn (num * 128 + 8192) s
      → s.varnum ≡ num
      → Declared (finish oldvarnum num t s).1
  unfolding finish
  finish-Declared num oldvarnum t s u e =
      let g = Growing-relevel 1 num (omega arith) (Growing-relevel 0 num (omega arith) u.growing) in
      let sound = g.caches in
      record {
        growing =
            Growing-dress s.varnum (λ l. if l == num then num else s.level2var l) s.varset
              s.refstack (record s.reorder { disabled = false })
              (record s.caches { misc = reset s.caches.misc }) g (omega arith) g.well.top_max
              g.well.top_varnum g.well.stacked g.quiet
              (record { apply = sound.apply; ite = sound.ite; quant = sound.quant }) g.named;
        consts = λ n h. ground (arith, e);
        room = omega (arith, u.growing.room);
        clear = u.clear;
      }

  -- In a package whose variables all have their nodes, with no references held, no error so far and
  -- automatic reordering off, let `bdd_setvarnum` be called with more variables, below MAXVAR. Then it
  -- returns. Either an error was raised, which is its answer, and the number of variables is the old
  -- one; or it succeeds, the package has that many variables, and all have their nodes.
  -- `bdd_prime_lte` is taken to find the largest prime up to its argument.
  pub bdd_setvarnum-Declared :
      (num : ℕ) (t : Tables) (s : Kernel)
      → Declared s
      → s.varnum < num
      → num < maxlevel
      → (answer : Declaration) × (t' : Tables) × (s' : Kernel) × (bdd_setvarnum prime_lte
            (nat num)
            t
            s
          ≡ done (answer, t') s')
        × (((answer ≡ failed s'.errorcond) × (s'.errorcond ≢ 0) × (s'.varnum ≡ s.varnum))
            ⊎ ((answer ≡ declared) × Declared s' × (s'.varnum ≡ num)))
  unfolding conclude finish
  bdd_setvarnum-Declared num t s d more below =
      let g = d.growing in
      let s1 = begun num s in
      let u : Turn (num * 128 + 8192) s1 = record {
        growing =
            Growing-dress s.varnum s.level2var s.varset [] s1.reorder s.caches g (omega arith)
              g.well.top_max g.well.top_varnum (λ n m. absurd m) g.quiet g.caches g.named;
        empty = refl;
        clear = d.clear;
      } in
      let (fine, s2, run, out) =
        declare-Turn prime_lte primes (num * 128 + 8192) (omega arith) (num - s.varnum) s1 u
          (omega arith) in
      let e = setvarnum_run num t s g.running more below in
      elim out [
        | inl (broken, bad) ↦ (
          failed s2.errorcond,
          _,
          _,
          e ∙ ended num t s s2 fine false run broken,
          inl (refl, bad, refl),
        )
        | inr (whole, v, n) ↦
            let all : s2.varnum ≡ num = omega arith in
            (
              declared,
              _,
              _,
              e ∙ ended num t s s2 fine true run whole,
              inr (refl, finish-Declared num s.varnum t s2 v all, all),
            )
      ]

-- In a package whose variables all have their nodes operators may be called, with nothing held, and for
-- each variable `bdd_ithvar` returns a BDD that is true where the variable is, and `bdd_nithvar` one
-- that is true where it is false.
pub ithvar-Denotes :
    (s : Kernel) (v : ℕ)
    → Declared s
    → v < s.varnum
    → Session s.varnum s []
      × Denotes s (ithvar (nat v) s) (λ ρ. ρ v)
      × Denotes s (nithvar (nat v) s) (λ ρ. not (ρ v))
unfolding ithvar nithvar
ithvar-Denotes s v d lt =
    let known : leb s.varnum v ≡ false = ground arith in
    let ((pl, (p1, p2, p3)), pc) = (d.growing.named v lt).0 in
    let ((nl, (n1, n2, n3)), nc) = (d.growing.named v lt).1 in
    (
      Declared-Session d,
      rw known (
        node v (leaf false) (leaf true),
        (pl, p1, p2, p3),
        λ ρ. elim (Bool-cases (ρ v)) [ inl y ↦ ground arith | inr y ↦ ground arith ],
      ),
      rw known (
        node v (leaf true) (leaf false),
        (nl, n1, n2, n3),
        λ ρ. elim (Bool-cases (ρ v)) [ inl y ↦ ground arith | inr y ↦ ground arith ],
      ),
    )
