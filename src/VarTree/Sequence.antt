-- ===== src/VarTree/Sequence.antt =====
-- The sequence of a block of src/tree.c, in a block of variables on adjacent levels.
use mo_to_buddy.Prelude.{
  ℕ, zero, suc, ◌+◌, ◌-◌, ◌≤◌, ◌<◌, ◌≡◌, ◌≢◌, refl, sym, ◌∙◌, ap, true, ltb, ◌==◌, if◌then◌else◌,
  arith, ℕ_discrete,
}
use mo_to_buddy.VarTree.{seq_low, seq_fill, update_seq, max_level, min_level, block_is_adjacent}

module _ (var2level : ℕ → ℕ) where
  abbrev lower : ℕ → ℕ → ℕ
  lower n low = if ltb (var2level n) (var2level low) then n else low

  abbrev higher : ℕ → ℕ → ℕ
  higher n level = if ltb level (var2level n) then var2level n else level

  seq_low-le_start : (rounds n low : ℕ) → var2level (seq_low var2level rounds n low) ≤ var2level low
  seq_low-le_start zero n low = omega arith
  seq_low-le_start (suc rounds) n low =
      let here : var2level (lower n low) ≤ var2level low = ground arith in
      omega (arith, seq_low-le_start rounds (n + 1) (lower n low), here)

  -- The variable found stands on a lowest level.
  seq_low-le :
      (rounds n low m : ℕ)
      → n ≤ m
      → m < n + rounds
      → var2level (seq_low var2level rounds n low) ≤ var2level m
  seq_low-le zero n low m h k = absurd (omega arith)
  seq_low-le (suc rounds) n low m h k =
      let bound = seq_low-le_start rounds (n + 1) (lower n low) in
      elim (ℕ_discrete m n) [
        | yes e ↦ rw e (
            let here : var2level (lower n low) ≤ var2level n = ground arith in
            omega (arith, bound, here))
        | no ne ↦ seq_low-le rounds (n + 1) (lower n low) m (omega arith) (omega arith)
      ]

  min_level-seq_low :
      (rounds n low : ℕ)
      → min_level var2level rounds n (var2level low) ≡ var2level (seq_low var2level rounds n low)
  min_level-seq_low zero n low = refl
  min_level-seq_low (suc rounds) n low =
      let same : (if ltb (var2level n) (var2level low) then var2level n else var2level low)
          ≡ var2level (lower n low) =
        ground arith in
      ap (min_level var2level rounds (n + 1)) same ∙ min_level-seq_low rounds (n + 1) (lower n low)

  le-max_level_start : (rounds n level : ℕ) → level ≤ max_level var2level rounds n level
  le-max_level_start zero n level = omega arith
  le-max_level_start (suc rounds) n level =
      let here : level ≤ higher n level = ground arith in
      omega (arith, le-max_level_start rounds (n + 1) (higher n level), here)

  le-max_level :
      (rounds n level m : ℕ)
      → n ≤ m
      → m < n + rounds
      → var2level m ≤ max_level var2level rounds n level
  le-max_level zero n level m h k = absurd (omega arith)
  le-max_level (suc rounds) n level m h k =
      let bound = le-max_level_start rounds (n + 1) (higher n level) in
      elim (ℕ_discrete m n) [
        | yes e ↦
            rw e
              (let here : var2level n ≤ higher n level = ground arith in omega (arith, bound, here))
        | no ne ↦ le-max_level rounds (n + 1) (higher n level) m (omega arith) (omega arith)
      ]

  abbrev written : ℕ → ℕ → (ℕ → ℕ) → ℕ → ℕ
  written n low seq i = if i == var2level n - var2level low then n else seq i

  -- An entry that no variable of the rest stands for is kept.
  seq_fill-other :
      (rounds n low : ℕ) (seq : ℕ → ℕ) (i : ℕ)
      → ((m : ℕ) → n ≤ m → m < n + rounds → i ≢ var2level m - var2level low)
      → seq_fill var2level rounds n low seq i ≡ seq i
  seq_fill-other zero n low seq i h = refl
  seq_fill-other (suc rounds) n low seq i h =
      let other : i ≢ var2level n - var2level low = h n (omega arith) (omega arith) in
      let kept : written n low seq i ≡ seq i = ground arith in
      seq_fill-other rounds (n + 1) low (written n low seq) i
        (λ m p q. h m (omega arith) (omega arith))
      ∙ kept

  seq_fill-at :
      (rounds n low : ℕ) (seq : ℕ → ℕ) (m : ℕ)
      → n ≤ m
      → m < n + rounds
      → ((j k : ℕ) → var2level j ≡ var2level k → j ≡ k)
      → ((j : ℕ) → n ≤ j → j < n + rounds → var2level low ≤ var2level j)
      → seq_fill var2level rounds n low seq (var2level m - var2level low) ≡ m
  seq_fill-at zero n low seq m h k inj least = absurd (omega arith)
  seq_fill-at (suc rounds) n low seq m h k inj least = elim (ℕ_discrete m n) [
    | yes e ↦
        let here : written n low seq (var2level n - var2level low) ≡ n = ground arith in
        rw e (
          seq_fill-other rounds (n + 1) low (written n low seq) (var2level n - var2level low)
            (λ j p q same.
              let l = least n (omega arith) (omega arith) in
              let l' = least j (omega arith) (omega arith) in
              let clash : n ≡ j = inj n j (omega arith) in absurd (omega arith))
          ∙ here)
    | no ne ↦
        seq_fill-at rounds (n + 1) low (written n low seq) m (omega arith) (omega arith) inj
          (λ j p q. least j (omega arith) (omega arith))
  ]

  lowest :
      (first k : ℕ)
      → var2level (seq_low var2level (suc k) first first)
        ≡ min_level var2level k (first + 1) (var2level first)
  lowest first k =
      let itself : lower first first ≡ first = ground arith in
      ap (λ (n : ℕ). var2level (seq_low var2level k (first + 1) n)) itself
      ∙ sym (min_level-seq_low k (first + 1) first)

  le-highest :
      (first k m : ℕ)
      → first ≤ m
      → m ≤ first + k
      → var2level m ≤ max_level var2level k (first + 1) (var2level first)
  le-highest first k m fm mk = elim (ℕ_discrete m first) [
    | yes e ↦ rw e (le-max_level_start k (first + 1) (var2level first))
    | no ne ↦ le-max_level k (first + 1) (var2level first) m (omega arith) (omega arith)
  ]

  -- Let different variables stand on different levels, and let the variables of a range stand on
  -- adjacent levels. Then, for each of them, its level counted from the lowest of them is within the
  -- sequence that `update_seq` fills, and the entry there is the variable.
  pub update_seq-at :
      (first last m : ℕ)
      → ((j k : ℕ) → var2level j ≡ var2level k → j ≡ k)
      → block_is_adjacent var2level first last ≡ true
      → first ≤ m
      → m ≤ last
      → (low : ℕ) × ((n : ℕ) → first ≤ n → n ≤ last → var2level low ≤ var2level n)
        × (var2level m - var2level low ≤ last - first)
        × (update_seq var2level first last (var2level m - var2level low) ≡ m)
  unfolding block_is_adjacent update_seq
  update_seq-at first last m inj adjacent fm ml =
      let rounds : ℕ = last + 1 - first in
      let low = seq_low var2level rounds first first in
      let least : (n : ℕ) → first ≤ n → n ≤ last → var2level low ≤ var2level n =
        λ n p q. seq_low-le rounds first first n p (omega arith) in
      (
        low,
        least,
        (let k : ℕ = last - first in
            let count : rounds ≡ suc k = omega arith in
            let least_level : var2level low ≡ min_level var2level k (first + 1) (var2level first) =
              ap (λ (n : ℕ). var2level (seq_low var2level n first first)) count ∙ lowest first k in
            let most = le-highest first k m fm (omega arith) in
            let spread : max_level var2level k (first + 1) (var2level first)
                  - min_level var2level k (first + 1) (var2level first)
                ≡ last - first =
              ground arith in
            omega (arith, least_level, most, spread)),
        seq_fill-at rounds first low (λ i. 0) m fm (omega arith) inj
            (λ j p q. least j p (omega arith)),
      )
