-- ===== src/Tests/Parts.antt =====
-- The theorems about counting, src/prime.c, src/imatrix.c and src/tree.c on small inputs.
use mo_to_buddy.Prelude.{
  ℕ, ◌+◌, ◌-◌, ◌≤◌, ◌<◌, ◌≡◌, ◌*◌, ◌^◌, ◌%◌, refl, inl, inr, true, false, not, some, List, [], ◌∷◌,
  ◌==◌, arith,
}
use mo_to_buddy.Tree.{eval}
use mo_to_buddy.Cache.{Cache}
use mo_to_buddy.Kernel.{done}
use mo_to_buddy.Kernel.Settings.{nat, value}
use mo_to_buddy.Op.Ready.{Sound}
use mo_to_buddy.Op.Count.{Doubles, bdd_satcount}
use mo_to_buddy.Op.Count.Precision.{IsExact}
use mo_to_buddy.Op.Count.Models.{models}
use mo_to_buddy.Op.Count.Exact.{CountEntry, with_misc, bdd_satcount-models}
use mo_to_buddy.Tests.Table.{table, table-WellFormed}
use mo_to_buddy.Tests.Witnesses.{both, three-Rep}
use mo_to_buddy.Prime.{is_witness, is_prime, signed_remainder, u64_mulmod, mulmod, bdd_prime_gte}
use mo_to_buddy.Prime.Words.{u64_mulmod-mulmod}
use mo_to_buddy.Prime.Fermat.{is_witness-Fermat}
use mo_to_buddy.Prime.Search.{Plausible, bdd_prime_gte-Plausible}
use mo_to_buddy.Pairs.{Pairs, bdd_pairs_init, bdd_newpair, bdd_setpair}
use mo_to_buddy.Pairs.Distinct.{IsDistinct}
use mo_to_buddy.Pairs.Ids.{Reached, begin, new, Reached-IsDistinct}
use mo_to_buddy.Pairs.Ids
use mo_to_buddy.Imatrix.{Imatrix, imatrix_new, imatrix_depends}
use mo_to_buddy.Imatrix.Relation.{Change, set, clear, run, imatrix_depends-meaning}
use mo_to_buddy.VarTree.{
  BddTree, null, block, added, update_seq, block_is_adjacent, bdd_intaddvarblock,
}
use mo_to_buddy.VarTree.Nested.{Inserted, bdd_intaddvarblock-Inserted}
use mo_to_buddy.VarTree.Lost.{bdd_intaddvarblock-lost}
use mo_to_buddy.VarTree.Sequence.{update_seq-at}

u64_mulmod-mulmod_example :
    (u64_mulmod 4000000000 2000000001 1009 ≡ mulmod 4000000000 2000000001 1009)
    × (mulmod 4000000000 2000000001 1009 ≡ 4000000000 * 2000000001 % 1009)
u64_mulmod-mulmod_example =
    u64_mulmod-mulmod 4000000000 2000000001 1009 (omega arith) (omega arith) (omega arith)
      (omega arith) (omega arith)

two_passes : is_witness 2 11 ≡ false
unfolding is_witness signed_remainder
two_passes = refl

is_witness-Fermat_example : 2 ^ (11 - 1) % 11 ≡ 1
is_witness-Fermat_example =
    is_witness-Fermat 2 11 (omega arith) (omega arith) (omega arith) two_passes

-- Draws that are all 0 give the base 1.
no_draws : ℕ → ℕ
no_draws n = 0

five_passes : (at : ℕ) → (is_prime no_draws 5 at).0 ≡ true
unfolding is_prime no_draws signed_remainder
five_passes at = refl

bdd_prime_gte-Plausible_example :
    (p : ℕ) × (bdd_prime_gte no_draws 1 4 0 ≡ some p)
    × (4 ≤ p)
    × (p ≤ 5)
    × (p % 2 ≡ 1)
    × Plausible no_draws p
bdd_prime_gte-Plausible_example =
    bdd_prime_gte-Plausible no_draws 1 4 5 0 (omega arith) (omega arith) (omega arith) (omega arith)
      five_passes (omega arith)

abbrev some_changes : List Change
some_changes = set 0 2 ∷ set 8 8 ∷ clear 0 2 ∷ set 0 3 ∷ []

imatrix_depends-meaning_example :
    (m : Imatrix) × (answer : ℕ) × (run some_changes (imatrix_new 16) ≡ some m)
    × (imatrix_depends m 0 3 ≡ some answer)
    × (not (answer == 0) ≡ true)
imatrix_depends-meaning_example =
    imatrix_depends-meaning 16 some_changes 0 3
      (
        omega arith,
        omega arith,
        (omega arith, omega arith, (omega arith, omega arith, (omega arith, omega arith, tt))),
      )
      (omega arith) (omega arith)

abbrev identity : ℕ → ℕ
identity n = n

abbrev wide_block : BddTree
wide_block = block 0 5 true 0 (λ i. i) null null

adjacent_two : block_is_adjacent identity 2 3 ≡ true
unfolding block_is_adjacent
adjacent_two = refl

bdd_intaddvarblock-Inserted_example :
    (t' : BddTree) × (bdd_intaddvarblock identity 10
        (nat 2)
        (nat 3)
        true
        (record { vartree = wide_block; blockid = 1 })
      ≡ (added 1, record { vartree = t'; blockid = 2 }))
    × Inserted 0 10 2 3 wide_block t'
bdd_intaddvarblock-Inserted_example =
    bdd_intaddvarblock-Inserted identity 10 2 3 true (record { vartree = wide_block; blockid = 1 })
      (omega arith) (omega arith) adjacent_two (omega arith) (inr (inr (inl (omega arith))), tt, tt)

adjacent_five : block_is_adjacent identity 5 9 ≡ true
unfolding block_is_adjacent
adjacent_five = refl

bdd_intaddvarblock-lost_example :
    bdd_intaddvarblock identity 10 (nat 5) (nat 9) true (record {
      vartree = block 0 1 true 0 (λ i. i) null (block 4 7 true 1 (λ i. i) null null);
      blockid = 2;
    })
    ≡ (added 2, record { vartree = block 0 1 true 0 (λ i. i) null null; blockid = 3 })
bdd_intaddvarblock-lost_example =
    bdd_intaddvarblock-lost identity 10 5 9 true 2 0 1 true 0 (λ i. i) null 4 7 true 1 (λ i. i) null
      null (omega arith) (omega arith) (omega arith) (omega arith) (omega arith) (omega arith)
      adjacent_five

update_seq-at_example :
    (low : ℕ) × ((n : ℕ) → 5 ≤ n → n ≤ 9 → identity low ≤ identity n)
    × (identity 7 - identity low ≤ 9 - 5)
    × (update_seq identity 5 9 (identity 7 - identity low) ≡ 7)
update_seq-at_example =
    update_seq-at identity 5 9 7 (λ j k e. e) adjacent_five (omega arith) (omega arith)

no_counts : Sound (CountEntry 2 table) table.caches.misc
no_counts = record { past = λ i. omega arith; entries = λ i g. absurd (omega (arith, g)) }

table_consts : (n : ℕ) → n < 2 → (table.nodes n).level ≡ 2
table_consts n h = ground arith

-- Arithmetic that never rounds.
abbrev unrounded : Doubles
unrounded = record { plus = λ a b. a + b; times = λ a b. a * b; pow2 = λ n. 2 ^ n }

unrounded-IsExact : IsExact unrounded
unrounded-IsExact = record { plus = λ a b h. refl; times = λ a b h k l. refl; pow2 = λ n h. refl }

bdd_satcount-models_example :
    (c : Cache) × (bdd_satcount unrounded 3 3 table
      ≡ done (value (models 2 0 (eval both))) (with_misc table c))
    × Sound (CountEntry 2 table) c
bdd_satcount-models_example =
    bdd_satcount-models unrounded table 3 3 (eval both) unrounded-IsExact (omega arith)
      table-WellFormed refl table_consts no_counts (both, three-Rep, λ ρ. refl) (omega arith)

-- Two tables, in the first of which a variable is replaced.
abbrev first_table : Pairs
unfolding bdd_newpair
first_table = (bdd_newpair 1 bdd_pairs_init table).0

abbrev both_tables : Pairs
unfolding bdd_newpair
both_tables = (bdd_newpair 2 first_table table).0

both_tables-Reached : Reached (bdd_setpair identity 1 (nat 0) (nat 1) both_tables table).1
unfolding bdd_newpair
both_tables-Reached =
    Ids.set identity 1 (nat 0) (nat 1) table
      (new 2 table (λ e. absurd (omega (arith, e)), tt) (new 1 table tt (begin refl) refl) refl)
      refl

Reached-IsDistinct_example : IsDistinct (bdd_setpair identity 1 (nat 0) (nat 1) both_tables table).1
Reached-IsDistinct_example = Reached-IsDistinct both_tables-Reached
