-- ===== src/Tests/Starting.antt =====
-- The theorems about `bdd_init` and `bdd_setvarnum` of src/kernel.c for a table of seven slots.
use mo_to_buddy.Prelude.{
  ℕ, ◌≡◌, ◌≢◌, refl, ◌⊎◌, inl, inr, Bool, true, false, not, [], arith, ap, leb, if◌then◌else◌,
}
use mo_to_buddy.Kernel.{Kernel, Run, done, longjmp, abort, out_of_fuel}
use mo_to_buddy.Kernel.Settings.{nat, value, set_max_node_num, ithvar, nithvar}
use mo_to_buddy.Hash.{hash_node, hash_range}
use mo_to_buddy.Kernel.Chain.{find}
use mo_to_buddy.Kernel.Partition.{link}
use mo_to_buddy.Kernel.Makenode.{makenode}
use mo_to_buddy.Kernel.Refs.{pushref, popref}
use mo_to_buddy.Pairs.{bdd_pairs_init}
use mo_to_buddy.Represents.{Denotes}
use mo_to_buddy.Session.{Session}
use mo_to_buddy.Start.{
  Tables, Declaration, declared, failed, bdd_init, initial_nodes, initial, initial_tables,
  bdd_setvarnum,
}
use mo_to_buddy.Start.Declared.{Declared, bdd_init-Declared, bdd_setvarnum-Declared, ithvar-Denotes}
use mo_to_buddy.VarTree.{null}
use mo_to_buddy.Tests.Primes.{largest_prime, largest_prime-FindsPrimes, five-IsPrime}
use mo_to_buddy.Tests.Table.{table}

-- A prime from the argument on, for arguments up to 5.
abbrev next_prime : ℕ → ℕ
next_prime n = if leb n 3 then 3 else 5

abbrev no_tables : Tables
no_tables = record {
  pairs = bdd_pairs_init;
  quantvarset = record { ids = λ l. 0; positive = λ l. true; id = 0; last = 0 };
  var2level = λ v. v;
  blocks = record { vartree = null; blockid = 0 };
}

abbrev between : Kernel
between = record table { running = false; refstack = []; maxnodesize = 0 }

-- The state after `bdd_init(4, 4)` and `bdd_setmaxnodenum(100)`.
abbrev opened : Kernel
unfolding set_max_node_num
opened = (set_max_node_num (nat 100) (initial 5 5 between)).1

bdd_init-Declared_example :
    (bdd_init next_prime 4 4 no_tables between
      ≡ (value 0, initial_tables no_tables, initial 5 5 between))
    × ((set_max_node_num (nat 100) (initial 5 5 between)).0 ≡ value 0)
    × Declared opened
    × (opened.varnum ≡ 0)
unfolding opened
bdd_init-Declared_example =
    bdd_init-Declared next_prime 4 4 100 no_tables between refl refl refl five-IsPrime (omega arith)
      (omega arith) (omega arith)

opened-Declared : Declared opened
unfolding opened
opened-Declared =
    (bdd_init-Declared next_prime 4 4 100 no_tables between refl refl refl five-IsPrime
      (omega arith) (omega arith) (omega arith)).2

bdd_setvarnum-Declared_example :
    (answer : Declaration) × (t' : Tables) × (s' : Kernel) × (bdd_setvarnum largest_prime
        (nat 1)
        no_tables
        opened
      ≡ done (answer, t') s')
    × (((answer ≡ failed s'.errorcond) × (s'.errorcond ≢ 0) × (s'.varnum ≡ 0))
        ⊎ ((answer ≡ declared) × Declared s' × (s'.varnum ≡ 1)))
unfolding opened
bdd_setvarnum-Declared_example =
    bdd_setvarnum-Declared largest_prime largest_prime-FindsPrimes 1 no_tables opened
      opened-Declared (omega arith) (omega arith)

-- What the call leaves.
abbrev state_of : {A : Type 0} → Run A → Kernel
state_of (done x s) = s
state_of (longjmp s) = s
state_of abort = table
state_of out_of_fuel = table

abbrev succeeded : Run (Declaration × Tables) → Bool
succeeded (done (declared, t) s) = true
succeeded _ = false

abbrev first_variable : Run (Declaration × Tables)
unfolding opened bdd_setvarnum
first_variable = bdd_setvarnum largest_prime (nat 1) no_tables opened

success :
    (r : Run (Declaration × Tables)) (answer : Declaration) (t' : Tables) (s' : Kernel)
    → r ≡ done (answer, t') s'
    → ((answer ≡ failed s'.errorcond) × (s'.errorcond ≢ 0) × (s'.varnum ≡ 0))
      ⊎ ((answer ≡ declared) × Declared s' × (s'.varnum ≡ 1))
    → succeeded r ≡ true
    → Declared (state_of r) × ((state_of r).varnum ≡ 1)
success r answer t' s' e (inl (same, bad, n)) fine =
    absurd (cc (ap succeeded e, ap (λ a. succeeded (done (a, t') s')) same, fine))
success r answer t' s' e (inr (same, d, n)) fine = rw e (d, n)

first_variable-succeeds : succeeded first_variable ≡ true
unfolding first_variable makenode find initial_nodes hash_range hash_node pushref link popref
first_variable-succeeds = refl

one-Declared : Declared (state_of first_variable) × ((state_of first_variable).varnum ≡ 1)
unfolding opened first_variable
one-Declared =
    let (answer, t', s', e, out) =
      bdd_setvarnum-Declared largest_prime largest_prime-FindsPrimes 1 no_tables opened
        opened-Declared (omega arith) (omega arith) in
    success first_variable answer t' s' e out first_variable-succeeds

ithvar-Denotes_example :
    Session (state_of first_variable).varnum (state_of first_variable) []
    × Denotes (state_of first_variable) (ithvar (nat 0) (state_of first_variable)) (λ ρ. ρ 0)
    × Denotes (state_of first_variable) (nithvar (nat 0) (state_of first_variable)) (λ ρ. not (ρ 0))
ithvar-Denotes_example =
    ithvar-Denotes (state_of first_variable) 0 one-Declared.0 (omega (arith, one-Declared.1))
