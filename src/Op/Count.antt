-- ===== src/Op/Count.antt =====
-- Counting in src/bddop.c: `bdd_satcount` and `bdd_pathcount` with their recursions and their use of
-- `misccache`. The arithmetic on `double` is a parameter, whose values
-- are coded by numbers. The fuel bounds the depth of the recursion.
pub mod Models
pub mod Precision
pub mod Exact
use mo_to_buddy.Prelude.{ℕ, zero, suc, ◌-◌, ◌&&◌, none, some, ltb, ◌==◌, if◌then◌else◌}
use mo_to_buddy.Hash.{hash1}
use mo_to_buddy.Kernel.{Kernel, done, out_of_fuel, Cmd, and_then, level, low, high}
use mo_to_buddy.Kernel.Settings.{Answer, value}
use mo_to_buddy.Op.{cached_in}
use mo_to_buddy.Op.Call.{checka}
use mo_to_buddy.Op.Restrict.{misc_remember}

abbrev pub cacheid_satcou : ℕ
cacheid_satcou = 2

abbrev pub cacheid_pathcou : ℕ
cacheid_pathcou = 4

-- The compiler's arithmetic on `double` and the library's `pow` at the base 2.
pub record Doubles : Type 0 where
  pub plus : ℕ → ℕ → ℕ
  pub times : ℕ → ℕ → ℕ
  pub pow2 : ℕ → ℕ

-- The number of assignments of the levels between a node and a child.
abbrev pub gap : Doubles → Kernel → ℕ → ℕ → ℕ
gap fp s root child = fp.times 1 (fp.pow2 (level s child - level s root - 1))

-- The two results are combined and written to the cache.
abbrev pub counted_as : ℕ → ℕ → (Kernel → ℕ → ℕ → ℕ) → (ℕ → Cmd ℕ) → Cmd ℕ
counted_as id root combine count s = and_then (count (low s root) s) (λ a s1.
    and_then (count (high s1 root) s1)
      (λ b s2. misc_remember (hash1 root) (λ e. record e { a = root; c = id }) (combine s2 a b) s2))

abbrev pub satcount_sum : Doubles → ℕ → Kernel → ℕ → ℕ → ℕ
satcount_sum fp root s a b =
    fp.plus (fp.plus 0 (fp.times (gap fp s root (low s root)) a))
      (fp.times (gap fp s root (high s root)) b)

unfoldable pub satcount_rec : Doubles → ℕ → ℕ → Cmd ℕ
unfolding cached_in misc_remember
satcount_rec fp zero root s = out_of_fuel
satcount_rec fp (suc fuel) root s =
    let both = counted_as cacheid_satcou root (satcount_sum fp root) (satcount_rec fp fuel) s in
    if ltb root 2
    then done root s
    else elim (cached_in s.caches.misc (hash1 root)
        (λ e. (e.a == root) && (e.c == cacheid_satcou))) [ some res ↦ done res s | none ↦ both ]

unfoldable pub bdd_satcount : Doubles → ℕ → ℕ → Cmd Answer
unfolding satcount_rec checka
bdd_satcount fp fuel r = checka r (λ s.
    and_then (satcount_rec fp fuel r s) (λ n. done (value (fp.times (fp.pow2 (level s r)) n))))

unfoldable pub pathcount_rec : Doubles → ℕ → ℕ → Cmd ℕ
unfolding cached_in misc_remember
pathcount_rec fp zero r s = out_of_fuel
pathcount_rec fp (suc fuel) r s =
    let both = counted_as cacheid_pathcou r (λ t a b. fp.plus a b) (pathcount_rec fp fuel) s in
    if r == 0
    then done 0 s
    else if r == 1
    then done 1 s
    else elim (cached_in s.caches.misc (hash1 r) (λ e. (e.a == r) && (e.c == cacheid_pathcou))) [
      | some res ↦ done res s
      | none ↦ both
    ]

unfoldable pub bdd_pathcount : Doubles → ℕ → ℕ → Cmd Answer
unfolding pathcount_rec checka
bdd_pathcount fp fuel r = checka r (λ s. and_then (pathcount_rec fp fuel r s) (λ n. done (value n)))
