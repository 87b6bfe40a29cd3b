-- ===== src/Tests/Witnesses.antt =====
-- The theorems about src/kernel.c and src/cache.c at concrete tables, numbers and caches.
use mo_to_buddy.Op.Quantify.{quant_rec}
use mo_to_buddy.Op.Quantified.{Setup}
use mo_to_buddy.Op.Exists.{Agree, quant_rec-exists, quant_rec-forall}
use mo_to_buddy.Op.{and, or, xor, not_rec, apply_rec}
use mo_to_buddy.Op.Ite.{ite_rec}
use mo_to_buddy.Op.Stack.{Retains, push}
use mo_to_buddy.Op.Ready.{Quantifier, exist, forall, Ready, push-Ready}
use mo_to_buddy.Op.Negation.{not_rec-Denotes}
use mo_to_buddy.Op.Apply.{apply_rec-Denotes}
use mo_to_buddy.Op.Choice.{ite_rec-Denotes}
use mo_to_buddy.Prelude.{
  ℕ, ◌<◌, ◌≡◌, refl, ◌⊎◌, ◌↔◌, inl, inr, true, false, [], ◌∷◌, some, Among, arith, ◌≢◌, List, not,
  if◌then◌else◌, ℕ_discrete, Bool, ◌==◌,
}
use mo_to_buddy.Tree.{Tree, leaf, node, Assignment, eval}
use mo_to_buddy.Hash.{hash_range, hash_range-lt}
use mo_to_buddy.Cache.{init, reset, resize}
use mo_to_buddy.Cache.Lookup.{IsPast, AllMiss, Stored, lookup-store, init-AllMiss, reset-AllMiss}
use mo_to_buddy.Kernel.{Nodes, Kernel, done, reorder_ready}
use mo_to_buddy.Kernel.WellFormed.{Live, WellFormed}
use mo_to_buddy.Kernel.Protected.{constant, stacked}
use mo_to_buddy.Kernel.Gbc.{gbc, mark_all}
use mo_to_buddy.Kernel.Gbc.Collect.{Collected, mark_all-MarkedAll, gbc-Collected}
use mo_to_buddy.Kernel.Gbc.Collect.Table.{MarkedAll}
use mo_to_buddy.Kernel.Makenode.{makenode, noderesize}
use mo_to_buddy.Kernel.Makenode.Resize.{Limits, Resized, noderesize-Resized}
use mo_to_buddy.Kernel.Makenode.Build.{Fitting}
use mo_to_buddy.Kernel.Makenode.Made.{Made, makenode-Made}
use mo_to_buddy.Kernel.Refs.{Result, addref, delref}
use mo_to_buddy.Kernel.Refs.Counted.{addref-Outcome, Outcome, more, delref-addref}
use mo_to_buddy.Kernel.Scan.{scan}
use mo_to_buddy.Op.Varset.{Varset, filled, varset2vartable, varset2vartable-exact}
use mo_to_buddy.Represents.{Rep, Denotes}
use mo_to_buddy.Represents.Referenced.{addref-survives}
use mo_to_buddy.Tests.Primes.{largest_prime, largest_prime-FindsPrimes, five-IsPrime}
use mo_to_buddy.Tests.Table.{table, table-WellFormed, live_two, live_three}

table-Limits : Limits table
table-Limits = record {
  fits = omega arith;
  step = omega arith;
  within = omega arith;
  prime = five-IsPrime;
  odd = omega arith;
}

table-no_jump : reorder_ready table ≡ false
unfolding reorder_ready
table-no_jump = refl

table-Fitting : Fitting 2 0 2 1 table
table-Fitting = record {
  below = omega arith;
  low_ok = inr live_two;
  high_ok = inl (omega arith);
  low_beyond = inr (omega arith);
  high_beyond = inl (omega arith);
}

abbrev pub x1 : Tree
x1 = node 1 (leaf false) (leaf true)

abbrev pub both : Tree
both = node 0 (leaf false) x1

pub two-Rep : Rep table 2 x1
two-Rep = (live_two, refl, refl, refl)

pub three-Rep : Rep table 3 both
three-Rep = (live_three, refl, refl, two-Rep)

-- x0 or x1 is made from x1 and true.
makenode-Made_example :
    (res : ℕ) × (s' : Kernel) × (makenode largest_prime 0 2 1 table ≡ done res s')
    × Made 2 table s' 0 2 1 res
makenode-Made_example =
    makenode-Made largest_prime largest_prime-FindsPrimes 0 2 1 table-WellFormed table-Limits
      table-no_jump table-Fitting (stacked (inl refl)) (constant (omega arith))

gbc-Collected_example : (s' : Kernel) × (gbc table ≡ done tt s') × Collected 2 table s'
gbc-Collected_example = gbc-Collected table-WellFormed

mark_all-MarkedAll_example : (nodes : Nodes) × (mark_all table ≡ some nodes) × MarkedAll table nodes
mark_all-MarkedAll_example = mark_all-MarkedAll table-WellFormed

noderesize-Resized_example : Resized 2 table (noderesize largest_prime true table).1
noderesize-Resized_example =
    noderesize-Resized largest_prime largest_prime-FindsPrimes table-WellFormed table-Limits

-- The nodes of x1 and of the conjunction.
abbrev x1_node : ℕ
x1_node = 2

abbrev both_node : ℕ
both_node = 3

addref-survives_example :
    (s' : Kernel) × (gbc (addref 3 table).1 ≡ done tt s')
    × WellFormed 2 s'
    × Live s'.nodesize s'.nodes 3
    × Rep s' 3 both
addref-survives_example = addref-survives 3 both table-WellFormed refl live_three three-Rep

addref-Outcome_example : Outcome table 4 (more 0) (addref 4 table)
addref-Outcome_example = addref-Outcome table 4

delref-addref_example : delref 2 (addref 2 table).1 ≡ (Result.node 2, table)
delref-addref_example = delref-addref table 2 refl live_two (omega arith)

hash_range-lt_example : hash_range 4294967295 5 < 5
hash_range-lt_example = hash_range-lt 4294967295 5 (omega arith) (omega arith)

lookup-store_example : Stored (init 7) 1000000000 2 3 0 4 3000000000
lookup-store_example = lookup-store (init 7) 1000000000 2 3 0 4 3000000000

init-IsPast : IsPast (init 7)
init-IsPast = (init-AllMiss 7).1

reset-AllMiss_example :
    (AllMiss (reset (init 7)) × IsPast (reset (init 7)))
    × (AllMiss (resize (init 7) 13) × IsPast (resize (init 7) 13))
reset-AllMiss_example = reset-AllMiss (init 7) 13 init-IsPast

-- No level was ever entered.
abbrev no_varset : Varset
no_varset = record { ids = λ l. 0; positive = λ l. true; id = 0; last = 0 }

varset2vartable-exact_example :
    (ls : List ℕ) × (t' : Varset) × (varset2vartable 3 table 3 no_varset ≡ filled t')
    × (scan 3 table 3 ≡ some ls)
    × ((l : ℕ) → (t'.ids l ≡ t'.id) ↔ Among l ls)
varset2vartable-exact_example =
    varset2vartable-exact 3 no_varset table-WellFormed live_three (omega arith, λ l. omega arith)

pub table-Ready : Ready 2 table
table-Ready = record {
  well = table-WellFormed;
  limits = table-Limits;
  no_jump = table-no_jump;
  consts = λ n h. elim (ℕ_discrete n 0) [
    | yes e ↦ rw e (omega arith)
    | no e ↦ let one : n ≡ 1 = omega arith in rw one (omega arith)
  ];
  caches = record {
    apply = record { past = λ i. omega arith; entries = λ i g. absurd (omega (arith, g)) };
    ite = record { past = λ i. omega arith; entries = λ i g. absurd (omega (arith, g)) };
    quant = record { past = λ i. omega arith; entries = λ i g. absurd (omega (arith, g)) };
  };
}

not_rec-Denotes_example :
    (res : ℕ) × (s' : Kernel) × (not_rec (makenode largest_prime) 2 2 table ≡ done res s')
    × Ready 2 s'
    × Retains table s'
    × (s'.refstack ≡ 2 ∷ [])
    × ((s'.errorcond ≢ 0) ⊎ Denotes s' res (λ ρ. not (eval x1 ρ)))
not_rec-Denotes_example =
    not_rec-Denotes largest_prime largest_prime-FindsPrimes 2 table 2 (λ ρ. eval x1 ρ) table-Ready
      (x1, two-Rep, λ ρ. refl) (stacked (inl refl)) (omega arith) (omega arith)

-- An operator holds the conjunction on the stack as well.
abbrev busy : Kernel
busy = push 3 table

busy-Ready : Ready 2 busy
busy-Ready = push-Ready 3 table-Ready (inr live_three)

apply_rec-Denotes_example :
    (res : ℕ) × (s' : Kernel) × (apply_rec (makenode largest_prime) xor 3 2 3 busy ≡ done res s')
    × Ready 2 s'
    × Retains busy s'
    × (s'.refstack ≡ 3 ∷ 2 ∷ [])
    × ((s'.errorcond ≢ 0)
        ⊎ Denotes s' res (λ ρ. if eval x1 ρ then not (eval both ρ) else eval both ρ))
apply_rec-Denotes_example =
    apply_rec-Denotes largest_prime largest_prime-FindsPrimes xor 3 busy 2 3 (eval x1) (eval both)
      busy-Ready (x1, two-Rep, λ ρ. refl) (both, three-Rep, λ ρ. refl) (stacked (inr (inl refl)))
      (stacked (inl refl)) (omega arith) (omega arith)

ite_rec-Denotes_example :
    (res : ℕ) × (s' : Kernel) × (ite_rec
        (makenode largest_prime)
        (not_rec (makenode largest_prime) 3)
        3
        2
        3
        1
        busy
      ≡ done res s')
    × Ready 2 s'
    × Retains busy s'
    × (s'.refstack ≡ 3 ∷ 2 ∷ [])
    × ((s'.errorcond ≢ 0) ⊎ Denotes s' res (λ ρ. if eval x1 ρ then eval both ρ else true))
ite_rec-Denotes_example =
    ite_rec-Denotes largest_prime largest_prime-FindsPrimes 3 3 busy 2 3 1 (eval x1) (eval both)
      (λ ρ. true) busy-Ready (x1, two-Rep, λ ρ. refl) (both, three-Rep, λ ρ. refl)
      (leaf true, refl, λ ρ. refl) (stacked (inr (inl refl))) (stacked (inl refl))
      (constant (omega arith)) (omega arith) (omega arith) (omega arith)

-- The set of the second variable, as the node of x1 names it.
busy-Setup : (q : Quantifier) → Setup busy q 2 (λ l. l == 1) 1 x1
busy-Setup q = record {
  arg = record { rep = two-Rep; held = stacked (inr (inl refl)); ordered = (omega arith, tt, tt) };
  same = λ l. ground arith;
  none_past = λ l h. ground arith;
}

quant_rec-exists_example :
    (res : ℕ) × (s' : Kernel) × (quant_rec
        (makenode largest_prime)
        (apply_rec (makenode largest_prime) or 3)
        (λ l. l == 1)
        1
        16
        3
        3
        busy
      ≡ done res s')
    × Ready 2 s'
    × Retains busy s'
    × (s'.refstack ≡ 3 ∷ 2 ∷ [])
    × ((s'.errorcond ≢ 0)
        ⊎ ((g : Assignment → Bool) × Denotes s' res g
            × ((ρ : Assignment)
                → (g ρ ≡ true)
                  ↔ ((ρ' : Assignment) × Agree (λ l. l == 1) ρ ρ' × (eval both ρ' ≡ true)))))
quant_rec-exists_example =
    quant_rec-exists largest_prime largest_prime-FindsPrimes 2 1 (λ l. l == 1) x1 3 3 busy 3
      (eval both) busy-Ready (busy-Setup exist) (both, three-Rep, λ ρ. refl) (stacked (inl refl))
      (omega arith) (omega arith) (omega arith)

quant_rec-forall_example :
    (res : ℕ) × (s' : Kernel) × (quant_rec
        (makenode largest_prime)
        (apply_rec (makenode largest_prime) and 3)
        (λ l. l == 1)
        1
        17
        3
        3
        busy
      ≡ done res s')
    × Ready 2 s'
    × Retains busy s'
    × (s'.refstack ≡ 3 ∷ 2 ∷ [])
    × ((s'.errorcond ≢ 0)
        ⊎ ((g : Assignment → Bool) × Denotes s' res g
            × ((ρ : Assignment)
                → (g ρ ≡ true)
                  ↔ ((ρ' : Assignment) → Agree (λ l. l == 1) ρ ρ' → eval both ρ' ≡ true))))
quant_rec-forall_example =
    quant_rec-forall largest_prime largest_prime-FindsPrimes 2 1 (λ l. l == 1) x1 3 3 busy 3
      (eval both) busy-Ready (busy-Setup forall) (both, three-Rep, λ ρ. refl) (stacked (inl refl))
      (omega arith) (omega arith) (omega arith)
