-- ===== src/Tests/Clients.antt =====
-- The theorems about clients of src/bddop.c and about src/bvec.c, for a client of the table of five
-- slots that holds its two BDDs.
use mo_to_buddy.Prelude.{
  ◌+◌, ◌^◌, ◌%◌, ℕ, ◌≡◌, ◌≢◌, ◌⊎◌, ◌↔◌, refl, inl, inr, Bool, true, List, [], ◌∷◌, arith, ltb, leb,
  ◌==◌, length,
}
use mo_to_buddy.Tree.{Assignment, eval}
use mo_to_buddy.Kernel.{Kernel, done, ◌>>=◌}
use mo_to_buddy.Kernel.Refs.{addref}
use mo_to_buddy.Kernel.Settings.{value}
use mo_to_buddy.Represents.{Rep, Denotes}
use mo_to_buddy.Op.{xor}
use mo_to_buddy.Op.Ready.{in_tree}
use mo_to_buddy.Op.Exists.{Agree}
use mo_to_buddy.Op.Varset.{Varset, IsPast}
use mo_to_buddy.Op.Call.Quantify.{bdd_exist, bdd_forall}
use mo_to_buddy.Session.Quantify.{bdd_exist-Denotes, bdd_forall-Denotes}
use mo_to_buddy.Session.{Ref, Session}
use mo_to_buddy.Session.Held.{Session-own}
use mo_to_buddy.Session.Perform.{
  Action, negate, combine, choose, drop, collect, meaning_all, perform_all,
}
use mo_to_buddy.Session.Perform.Refines.{Refined, perform_all-Refined}
use mo_to_buddy.Session.Perform.Canonical.{IsCanonical, perform_all-IsCanonical}
use mo_to_buddy.Session.Vectors.{bdd_package, package_laws}
use mo_to_buddy.Bvec.{con, val, isconst, add, sub, lth, lte, equ, Package}
use mo_to_buddy.Bvec.Laws.{Lawful}
use mo_to_buddy.Bvec.Arithmetic.{number, truths, bdds, pile, add-number, sub-number}
use mo_to_buddy.Bvec.Order.{lth-number, lte-number, equ-number}
use mo_to_buddy.Bvec.Constants.{val-con}
use mo_to_buddy.Tests.Primes.{largest_prime, largest_prime-FindsPrimes}
use mo_to_buddy.Tests.Table.{table, live_two, live_three}
use mo_to_buddy.Tests.Witnesses.{x1, both, two-Rep, three-Rep, table-Ready}

table-Session : Session 2 table []
table-Session = record {
  ready = table-Ready;
  running = refl;
  room = omega arith;
  counted = λ n big own. absurd (omega arith);
  truths = λ z. tt;
}

abbrev x1_ref : Ref
x1_ref = record { bdd = 2; truth = eval x1 }

abbrev both_ref : Ref
both_ref = record { bdd = 3; truth = eval both }

-- The client has counted references to both nodes.
abbrev held_table : Kernel
unfolding addref
held_table = (addref 3 (addref 2 table).1).1

held_table-Session : Session 2 held_table (both_ref ∷ x1_ref ∷ [])
unfolding addref
held_table-Session =
    (Session-own 3 (eval both)
      ((Session-own 2 (eval x1) table-Session (inr live_two) (λ z. (x1, two-Rep, λ ρ. refl))).1)
      (inr live_three) (λ z. (both, three-Rep, λ ρ. refl))).1

abbrev some_actions : List Action
some_actions = negate 0 ∷ combine xor 0 2 ∷ drop 1 ∷ collect ∷ choose 0 1 5 ∷ []

perform_all-Refined_example :
    Refined 2
      (perform_all (λ n. n) 0 (λ s. s) (λ s. 0) largest_prime 3 some_actions (3 ∷ 2 ∷ []))
      held_table
      (meaning_all some_actions (eval both ∷ eval x1 ∷ []))
perform_all-Refined_example =
    perform_all-Refined (λ n. n) 0 (λ s. s) (λ s. 0) largest_prime largest_prime-FindsPrimes 3
      held_table (both_ref ∷ x1_ref ∷ []) some_actions held_table-Session (omega arith)

perform_all-IsCanonical_example :
    (bs : List ℕ) × (s' : Kernel) × (perform_all
        (λ n. n)
        0
        (λ s. s)
        (λ s. 0)
        largest_prime
        3
        some_actions
        (3 ∷ 2 ∷ [])
        held_table
      ≡ done bs s')
    × ((s'.errorcond ≢ 0) ⊎ IsCanonical bs (meaning_all some_actions (eval both ∷ eval x1 ∷ [])))
perform_all-IsCanonical_example =
    perform_all-IsCanonical (λ n. n) 0 (λ s. s) (λ s. 0) largest_prime largest_prime-FindsPrimes 3
      held_table (both_ref ∷ x1_ref ∷ []) some_actions held_table-Session (omega arith)

val-con_example : (val (con 4 11) ≡ 11) × (isconst (con 4 11) ≡ true)
val-con_example = val-con 4 11 (omega arith)

-- The vectors x1 x0x1 and x0x1 x1, least significant bit first.
abbrev left_vector : List Ref
left_vector = x1_ref ∷ both_ref ∷ []

abbrev right_vector : List Ref
right_vector = both_ref ∷ x1_ref ∷ []

abbrev calls : Package
calls = bdd_package (λ n. n) 0 (λ s. s) (λ s. 0) largest_prime 3

abbrev calls_laws : Lawful calls
calls_laws =
    package_laws (λ n. n) 0 (λ s. s) (λ s. 0) largest_prime 3 2 largest_prime-FindsPrimes
      (omega arith)

add-number_example :
    (bits : List Ref) × (s' : Kernel) × (add calls (2 ∷ 3 ∷ []) (3 ∷ 2 ∷ []) held_table
      ≡ done (bdds bits) s')
    × Session 2 s' (pile bits (both_ref ∷ x1_ref ∷ []))
    × (length bits ≡ 2)
    × ((ρ : Assignment)
        → number (truths bits) ρ
          ≡ (number (truths left_vector) ρ + number (truths right_vector) ρ) % 2 ^ 2)
add-number_example =
    add-number calls calls_laws left_vector right_vector (both_ref ∷ x1_ref ∷ []) held_table
      held_table-Session (inr (inl refl), (inl refl, tt)) (inl refl, (inr (inl refl), tt)) refl

sub-number_example :
    (bits : List Ref) × (s' : Kernel) × (sub calls (2 ∷ 3 ∷ []) (3 ∷ 2 ∷ []) held_table
      ≡ done (bdds bits) s')
    × Session 2 s' (pile bits (both_ref ∷ x1_ref ∷ []))
    × (length bits ≡ 2)
    × ((ρ : Assignment)
        → (number (truths bits) ρ + number (truths right_vector) ρ) % 2 ^ 2
          ≡ number (truths left_vector) ρ)
sub-number_example =
    sub-number calls calls_laws left_vector right_vector (both_ref ∷ x1_ref ∷ []) held_table
      held_table-Session (inr (inl refl), (inl refl, tt)) (inl refl, (inr (inl refl), tt)) refl

lth-number_example :
    (a : Ref) × (s' : Kernel) × ((lth calls (2 ∷ 3 ∷ []) (3 ∷ 2 ∷ []) >>= calls.addref) held_table
      ≡ done a.bdd s')
    × Session 2 s' (a ∷ both_ref ∷ x1_ref ∷ [])
    × ((ρ : Assignment)
        → a.truth ρ ≡ ltb (number (truths left_vector) ρ) (number (truths right_vector) ρ))
lth-number_example =
    lth-number calls calls_laws left_vector right_vector (both_ref ∷ x1_ref ∷ []) held_table
      held_table-Session (inr (inl refl), (inl refl, tt)) (inl refl, (inr (inl refl), tt)) refl
      (omega arith)

lte-number_example :
    (a : Ref) × (s' : Kernel) × ((lte calls (2 ∷ 3 ∷ []) (3 ∷ 2 ∷ []) >>= calls.addref) held_table
      ≡ done a.bdd s')
    × Session 2 s' (a ∷ both_ref ∷ x1_ref ∷ [])
    × ((ρ : Assignment)
        → a.truth ρ ≡ leb (number (truths left_vector) ρ) (number (truths right_vector) ρ))
lte-number_example =
    lte-number calls calls_laws left_vector right_vector (both_ref ∷ x1_ref ∷ []) held_table
      held_table-Session (inr (inl refl), (inl refl, tt)) (inl refl, (inr (inl refl), tt)) refl
      (omega arith)

equ-number_example :
    (a : Ref) × (s' : Kernel) × ((equ calls (2 ∷ 3 ∷ []) (3 ∷ 2 ∷ []) >>= calls.addref) held_table
      ≡ done a.bdd s')
    × Session 2 s' (a ∷ both_ref ∷ x1_ref ∷ [])
    × ((ρ : Assignment)
        → a.truth ρ ≡ (number (truths left_vector) ρ == number (truths right_vector) ρ))
equ-number_example =
    equ-number calls calls_laws left_vector right_vector (both_ref ∷ x1_ref ∷ []) held_table
      held_table-Session (inr (inl refl), (inl refl, tt)) (inl refl, (inr (inl refl), tt)) refl
      (omega arith)

-- No variable set was entered yet.
abbrev fresh : Varset
fresh = record { ids = λ l. 0; positive = λ l. true; id = 0; last = 0 }

fresh-IsPast : IsPast fresh
fresh-IsPast = (omega arith, λ l. omega arith)

-- The node of x1 as the set of the second variable.
x1-Rep : Rep held_table 2 x1
unfolding addref
x1-Rep = (live_two, refl, refl, refl)

bdd_exist-Denotes_example :
    (res : ℕ) × (s' : Kernel) × (t' : Varset) × (bdd_exist
        (λ n. n)
        0
        (λ s. s)
        (λ s. 0)
        largest_prime
        3
        3
        2
        fresh
        held_table
      ≡ done (value res, t') s')
    × Session 2 s' (both_ref ∷ x1_ref ∷ [])
    × ((s'.errorcond ≢ 0)
        ⊎ ((g : Assignment → Bool) × Denotes s' res g
            × ((ρ : Assignment)
                → (g ρ ≡ true)
                  ↔ ((ρ' : Assignment) × Agree (in_tree x1) ρ ρ' × (eval both ρ' ≡ true)))))
bdd_exist-Denotes_example =
    bdd_exist-Denotes (λ n. n) 0 (λ s. s) (λ s. 0) largest_prime largest_prime-FindsPrimes 3
      held_table (both_ref ∷ x1_ref ∷ []) 0 1 fresh x1 held_table-Session x1-Rep (omega arith)
      (omega arith) fresh-IsPast (omega arith)

bdd_forall-Denotes_example :
    (res : ℕ) × (s' : Kernel) × (t' : Varset) × (bdd_forall
        (λ n. n)
        0
        (λ s. s)
        (λ s. 0)
        largest_prime
        3
        3
        2
        fresh
        held_table
      ≡ done (value res, t') s')
    × Session 2 s' (both_ref ∷ x1_ref ∷ [])
    × ((s'.errorcond ≢ 0)
        ⊎ ((g : Assignment → Bool) × Denotes s' res g
            × ((ρ : Assignment)
                → (g ρ ≡ true)
                  ↔ ((ρ' : Assignment) → Agree (in_tree x1) ρ ρ' → eval both ρ' ≡ true))))
bdd_forall-Denotes_example =
    bdd_forall-Denotes (λ n. n) 0 (λ s. s) (λ s. 0) largest_prime largest_prime-FindsPrimes 3
      held_table (both_ref ∷ x1_ref ∷ []) 0 1 fresh x1 held_table-Session x1-Rep (omega arith)
      (omega arith) fresh-IsPast (omega arith)
