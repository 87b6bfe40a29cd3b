-- ===== src/Op/Count/Models.antt =====
-- The number of assignments of some levels that make a decision tree true.
use mo_to_buddy.Prelude.{
  ℕ, zero, suc, ◌+◌, ◌-◌, ◌*◌, ◌^◌, ◌<◌, ◌≡◌, sym, ◌∙◌, ap, Bool, true, false, if◌then◌else◌, arith,
  ℕ_discrete,
}
use native.Mathlib.Nat.{pow-suc, pow-zero}
use mo_to_buddy.Tree.{Tree, leaf, node, Assignment, eval, IsOrdered}
use mo_to_buddy.Tree.Canonical.{assign, eval-assign}
use mo_to_buddy.Op.Exists.{low_side, high_side}

-- The assignments of `k` levels from `lo` on, all other levels being false, that make it true.
abbrev pub models : ℕ → ℕ → (Assignment → Bool) → ℕ
models zero lo f = if f (λ l. false) then 1 else 0
models (suc k) lo f =
    models k (suc lo) (λ ρ. f (assign ρ lo false)) + models k (suc lo) (λ ρ. f (assign ρ lo true))

pub models-same :
    (k lo : ℕ) (f g : Assignment → Bool)
    → ((ρ : Assignment) → f ρ ≡ g ρ)
    → models k lo f ≡ models k lo g
models-same zero lo f g same = ap (λ (b : Bool). if b then 1 else 0) (same (λ l. false))
models-same (suc k) lo f g same = omega (
  arith,
  models-same k (suc lo) (λ ρ. f (assign ρ lo false)) (λ ρ. g (assign ρ lo false))
      (λ ρ. same (assign ρ lo false)),
  models-same k (suc lo) (λ ρ. f (assign ρ lo true)) (λ ρ. g (assign ρ lo true))
      (λ ρ. same (assign ρ lo true)),
)

-- The level that a tree starts at, of `top` levels.
abbrev pub start : ℕ → Tree → ℕ
start top (leaf b) = top
start top (node l t u) = l

-- No level is `top` or beyond.
abbrev pub IsBelow : ℕ → Tree → Type 0
IsBelow top (leaf b) = Unit
IsBelow top (node l t u) = (l < top) × IsBelow top t × IsBelow top u

-- The assignments of the levels behind the start of a tree, weighted as `satcount_rec` does it.
abbrev pub weight : ℕ → Tree → ℕ
weight top (leaf b) = if b then 1 else 0
weight top (node l t u) =
    2 ^ (start top t - l - 1) * weight top t + 2 ^ (start top u - l - 1) * weight top u

two_halves : (a w : ℕ) → 0 < a → 2 ^ (a - 1) * w + 2 ^ (a - 1) * w ≡ 2 ^ a * w
two_halves a w pos =
    let e : suc (a - 1) ≡ a = omega arith in
    let twice : 2 ^ a ≡ 2 ^ (a - 1) * 2 = ap (λ (n : ℕ). 2 ^ n) (sym e) ∙ pow-suc 2 (a - 1) in
    omega (arith, ap (λ (n : ℕ). n * w) twice)

no_power : (n w : ℕ) → n ≡ 0 → 2 ^ n * w ≡ w
no_power n w e = rw e (omega (arith, ap (λ (x : ℕ). x * w) (pow-zero 2)))

-- Each level up to the start of the tree doubles the number.
pub models-weight :
    (top k lo : ℕ) (t : Tree)
    → lo + k ≡ top
    → IsOrdered lo t
    → IsBelow top t
    → models k lo (eval t) ≡ 2 ^ (start top t - lo) * weight top t
models-weight top zero lo (leaf b) e o below =
    sym (no_power (top - lo) (if b then 1 else 0) (omega arith))
models-weight top zero lo (node l t u) e o below = absurd (omega (arith, o.0, below.0))
models-weight top (suc k) lo (leaf b) e o below =
    let w : ℕ = if b then 1 else 0 in
    let half = models-weight top k (suc lo) (leaf b) (omega arith) tt tt in
    let shorter : top - lo - 1 ≡ top - suc lo = omega arith in
    omega (arith, half, two_halves (top - lo) w (omega arith), ap (λ (n : ℕ). 2 ^ n * w) shorter)
models-weight top (suc k) lo (node l t u) e (le, ot, ou) (bl, bt, bu) = elim (ℕ_discrete lo l) [
  | yes here ↦ rw here (
      let low =
        models-same k (suc l) (λ ρ. eval (node l t u) (assign ρ l false)) (eval t)
          (λ ρ. low_side l t u ρ ot) in
      let high =
        models-same k (suc l) (λ ρ. eval (node l t u) (assign ρ l true)) (eval u)
          (λ ρ. high_side l t u ρ ou) in
      let low_weight = models-weight top k (suc l) t (omega arith) ot bt in
      let high_weight = models-weight top k (suc l) u (omega arith) ou bu in
      let low_gap : start top t - l - 1 ≡ start top t - suc l = omega arith in
      let high_gap : start top u - l - 1 ≡ start top u - suc l = omega arith in
      omega (
        arith,
        low,
        high,
        low_weight,
        high_weight,
        ap (λ (n : ℕ). 2 ^ n * weight top t) low_gap,
        ap (λ (n : ℕ). 2 ^ n * weight top u) high_gap,
        no_power (l - l) (weight top (node l t u)) (omega arith),
      ))
  | no later ↦
      let v = node l t u in
      let w : ℕ = weight top v in
      let o : IsOrdered (suc lo) v = (omega arith, ot, ou) in
      let half = models-weight top k (suc lo) v (omega arith) o (bl, bt, bu) in
      let down =
        models-same k (suc lo) (λ ρ. eval v (assign ρ lo false)) (eval v)
          (λ ρ. eval-assign v lo (suc lo) false ρ o (omega arith)) in
      let up =
        models-same k (suc lo) (λ ρ. eval v (assign ρ lo true)) (eval v)
          (λ ρ. eval-assign v lo (suc lo) true ρ o (omega arith)) in
      let shorter : l - lo - 1 ≡ l - suc lo = omega arith in
      omega (
        arith,
        half,
        down,
        up,
        two_halves (l - lo) w (omega arith),
        ap (λ (n : ℕ). 2 ^ n * w) shorter,
      )
]
