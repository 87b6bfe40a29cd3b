-- ===== src/Op/Count/Precision.antt =====
-- Where the `double` arithmetic of `satcount_rec` in src/bddop.c does not round: whole numbers up to
-- 2^53 are doubles.
use mo_to_buddy.Prelude.{
  ℕ, zero, suc, ◌+◌, ◌-◌, ◌*◌, ◌^◌, ◌≤◌, ◌≡◌, ◌∙◌, ap, subst, Bool, true, false, arith, Bool-cases,
  inl, inr,
}
use mathlib.Core.Path.{ap₂}
use native.Mathlib.Nat.{pow-suc, pow-zero, pow-le-pow_right, one-le-pow, mul-le-mul_right}
use mo_to_buddy.Tree.{Tree, Assignment, eval, IsOrdered}
use mo_to_buddy.Tree.Canonical.{assign}
use mo_to_buddy.Kernel.{Kernel, level, low, high}
use mo_to_buddy.Op.Count.{Doubles, gap, satcount_sum}
use mo_to_buddy.Op.Count.Models.{models, start, IsBelow, weight, models-weight}

-- 2^53
abbrev pub exact_up_to : ℕ
exact_up_to = 9007199254740992

-- A whole number up to 2^53 stands for itself, and operations whose operands and result are such
-- numbers are exact.
pub record IsExact (fp : Doubles) : Type 0 where
  pub plus : (a b : ℕ) → a + b ≤ exact_up_to → fp.plus a b ≡ a + b
  pub times :
      (a b : ℕ) → a ≤ exact_up_to → b ≤ exact_up_to → a * b ≤ exact_up_to → fp.times a b ≡ a * b
  pub pow2 : (n : ℕ) → n ≤ 53 → fp.pow2 n ≡ 2 ^ n

pub power-most : (n : ℕ) → n ≤ 53 → 2 ^ n ≤ exact_up_to
power-most n h = pow-le-pow_right {n = 2} (omega arith) h

pub scaled-least : (n w : ℕ) → w ≤ 2 ^ n * w
scaled-least n w =
    let least : 1 * w ≤ 2 ^ n * w = mul-le-mul_right w (one-le-pow n 2 (omega arith)) in
    omega (arith, least)

module _ (fp : Doubles) (exact : IsExact fp) where
  -- A power of two times a number.
  pub times-exact :
      (n w : ℕ) → n ≤ 53 → 2 ^ n * w ≤ exact_up_to → fp.times (fp.pow2 n) w ≡ 2 ^ n * w
  times-exact n w h small =
      ap (λ (p : ℕ). fp.times p w) (exact.pow2 n h)
      ∙ exact.times (2 ^ n) w (power-most n h) (omega (arith, scaled-least n w, small)) small

  gap-exact :
      (s : Kernel) (root child n : ℕ)
      → level s child - level s root - 1 ≡ n
      → n ≤ 53
      → gap fp s root child ≡ 2 ^ n
  gap-exact s root child n e h =
      let most = power-most n h in
      ap (fp.times 1) (ap fp.pow2 e ∙ exact.pow2 n h)
      ∙ exact.times 1 (2 ^ n) (omega arith) most (omega (arith, most))
      ∙ omega arith

  -- The sum of `satcount_rec` for two numbers of the branches.
  pub satcount_sum-exact :
      (s : Kernel) (root m n a b : ℕ)
      → level s (low s root) - level s root - 1 ≡ m
      → level s (high s root) - level s root - 1 ≡ n
      → m ≤ 53
      → n ≤ 53
      → 2 ^ m * a + 2 ^ n * b ≤ exact_up_to
      → satcount_sum fp root s a b ≡ 2 ^ m * a + 2 ^ n * b
  satcount_sum-exact s root m n a b em en hm hn small =
      let (x, y) : ℕ × ℕ = (2 ^ m * a, 2 ^ n * b) in
      let left : fp.times (gap fp s root (low s root)) a ≡ 2 ^ m * a =
        ap (λ (p : ℕ). fp.times p a) (gap-exact s root (low s root) m em hm)
        ∙ exact.times (2 ^ m) a (power-most m hm) (omega (arith, scaled-least m a, small))
            (omega (arith, small)) in
      let right : fp.times (gap fp s root (high s root)) b ≡ 2 ^ n * b =
        ap (λ (p : ℕ). fp.times p b) (gap-exact s root (high s root) n en hn)
        ∙ exact.times (2 ^ n) b (power-most n hn) (omega (arith, scaled-least n b, small))
            (omega (arith, small)) in
      let first : fp.plus 0 (2 ^ m * a) ≡ 2 ^ m * a =
        exact.plus 0 (2 ^ m * a) (omega (arith, small)) ∙ omega arith in
      ap₂ fp.plus (ap (fp.plus 0) left ∙ first) right ∙ exact.plus (2 ^ m * a) (2 ^ n * b) small

models-most : (k lo : ℕ) (f : Assignment → Bool) → models k lo f ≤ 2 ^ k
models-most zero lo f = elim (Bool-cases (f (λ l. false))) [
  | inl e ↦ rw e (omega (arith, pow-zero 2))
  | inr e ↦ rw e (omega (arith, pow-zero 2))
]
models-most (suc k) lo f = omega (
  arith,
  pow-suc 2 k,
  models-most k (suc lo) (λ ρ. f (assign ρ lo false)),
  models-most k (suc lo) (λ ρ. f (assign ρ lo true)),
)

-- The weight of a tree, times the assignments of the levels from `lo` on in front of it.
pub weight-most :
    (top lo : ℕ) (t : Tree)
    → lo ≤ top
    → IsOrdered lo t
    → IsBelow top t
    → 2 ^ (start top t - lo) * weight top t ≤ 2 ^ (top - lo)
weight-most top lo t h o below =
    subst (λ n. n ≤ 2 ^ (top - lo)) (models-weight top (top - lo) lo t (omega arith) o below)
      (models-most (top - lo) lo (eval t))
