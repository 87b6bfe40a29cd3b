-- ===== src/Op/Count/Exact.antt =====
-- `bdd_satcount` of src/bddop.c counts the satisfying assignments.
use mo_to_buddy.Prelude.{
  ℕ, zero, suc, ◌+◌, ◌-◌, ◌*◌, ◌^◌, ◌≤◌, ◌<◌, ◌≡◌, refl, sym, ◌∙◌, ap, subst, inl, inr, Bool, true,
  false, ◌&&◌, none, some, ltb, ◌==◌, if◌then◌else◌, arith, Option-cases,
}
use mo_to_buddy.Hash.{hash1}
use mo_to_buddy.Tree.{Tree, leaf, node, height, IsOrdered, Assignment, eval}
use mo_to_buddy.Cache.{Entry, Cache, lookup, put}
use mo_to_buddy.Kernel.{Kernel, done, Cmd, and_then, level}
use mo_to_buddy.Kernel.WellFormed.{WellFormed}
use mo_to_buddy.Kernel.Settings.{Answer, value}
use mo_to_buddy.Represents.{Rep, Denotes}
use mo_to_buddy.Represents.Unfold.{Rep-Ok, Rep-IsOrdered, unfold_tree}
use mo_to_buddy.Represents.Canonicity.{Rep-functional}
use mo_to_buddy.Op.{cached_in}
use mo_to_buddy.Op.Ready.{Sound, Sound-put}
use mo_to_buddy.Op.Negation.{hit_entry}
use mo_to_buddy.Op.Restrict.{misc_remember}
use mo_to_buddy.Op.Call.Returns.{checka-Ok}
use mo_to_buddy.Op.Count.{Doubles, cacheid_satcou, satcount_sum, satcount_rec, bdd_satcount}
use mo_to_buddy.Op.Count.Precision.{
  exact_up_to, IsExact, power-most, times-exact, satcount_sum-exact, weight-most,
}
use native.Mathlib.Nat.{pow-suc}
use mo_to_buddy.Op.Count.Models.{models, models-same, start, IsBelow, weight, models-weight}

abbrev pub with_misc : Kernel → Cache → Kernel
with_misc s c = record s { caches = record s.caches { misc = c } }

-- What a cached count says.
abbrev pub CountEntry : ℕ → Kernel → Entry → Type 0
CountEntry top s e = e.c ≡ cacheid_satcou → (t : Tree) × Rep s e.a t × (e.res ≡ weight top t)

abbrev fits : ℕ → Entry → Bool
fits root e = (e.a == root) && (e.c == cacheid_satcou)

start-most : {top : ℕ} (t : Tree) → IsBelow top t → start top t ≤ top
start-most (leaf b) below = omega arith
start-most (node l t u) below = omega (arith, below.0)

IsOrdered-weaken : (j : ℕ) (t : Tree) → IsOrdered j t → IsOrdered 0 t
IsOrdered-weaken j (leaf b) o = tt
IsOrdered-weaken j (node l t u) (le, ot, ou) = (omega arith, ot, ou)

module _ (fp : Doubles) (exact : IsExact fp) {top : ℕ} (few_levels : top ≤ 53) (s : Kernel)
    (consts : (n : ℕ) → n < 2 → (s.nodes n).level ≡ top) where
  level-start : (n : ℕ) (t : Tree) → Rep s n t → (s.nodes n).level ≡ start top t
  level-start n (leaf true) r = consts n (omega (arith, r))
  level-start n (leaf false) r = consts n (omega (arith, r))
  level-start n (node l t u) (live, e, a, b) = e

  run_const :
      (fuel root : ℕ) (b : Bool) (c : Cache)
      → Rep s root (leaf b)
      → satcount_rec fp (suc fuel) root (with_misc s c) ≡ done (if b then 1 else 0) (with_misc s c)
  unfolding satcount_rec
  run_const fuel root true c r = rw r refl
  run_const fuel root false c r = rw r refl

  run_hit :
      (fuel root res : ℕ) (c : Cache)
      → 1 < root
      → cached_in c (hash1 root) (fits root) ≡ some res
      → satcount_rec fp (suc fuel) root (with_misc s c) ≡ done res (with_misc s c)
  unfolding satcount_rec
  run_hit fuel root res c big e = let more : ltb root 2 ≡ false = ground arith in rw (more, e) refl

  abbrev written : ℕ → ℕ → Cache → Cache
  written root res c =
      put c (hash1 root)
        (record (lookup c (hash1 root)) { a = root; c = cacheid_satcou; res = res })

  run_miss :
      (fuel root a b : ℕ) (c c1 c2 : Cache)
      → 1 < root
      → cached_in c (hash1 root) (fits root) ≡ none
      → satcount_rec fp fuel (s.nodes root).low (with_misc s c) ≡ done a (with_misc s c1)
      → satcount_rec fp fuel (s.nodes root).high (with_misc s c1) ≡ done b (with_misc s c2)
      → satcount_rec fp (suc fuel) root (with_misc s c)
        ≡ done
            (satcount_sum fp root s a b)
            (with_misc s (written root (satcount_sum fp root s a b) c2))
  unfolding satcount_rec misc_remember
  run_miss fuel root a b c c1 c2 big miss e1 e2 =
      let more : ltb root 2 ≡ false = ground arith in rw (more, miss, e1, e2) refl

  -- The sum for a node is its weight, with nothing rounded.
  sum-weight :
      (root l : ℕ) (t u : Tree)
      → (s.nodes root).level ≡ l
      → (s.nodes (s.nodes root).low).level ≡ start top t
      → (s.nodes (s.nodes root).high).level ≡ start top u
      → l < top
      → IsBelow top t
      → IsBelow top u
      → IsOrdered (suc l) t
      → IsOrdered (suc l) u
      → satcount_sum fp root s (weight top t) (weight top u) ≡ weight top (node l t u)
  sum-weight root l t u e lt lu bl bt bu ot ou =
      let (most_t, most_u) : (start top t ≤ top) × (start top u ≤ top) =
        (start-most t bt, start-most u bu) in
      let m : ℕ = start top t - l - 1 in
      let n : ℕ = start top u - l - 1 in
      let half : 2 ^ (top - suc l) + 2 ^ (top - suc l) ≤ exact_up_to =
        omega (arith, pow-suc 2 (top - suc l), power-most (suc (top - suc l)) (omega arith)) in
      let low_most : 2 ^ m * weight top t ≤ 2 ^ (top - suc l) =
        subst (λ i. 2 ^ i * weight top t ≤ 2 ^ (top - suc l)) (omega arith)
          (weight-most top (suc l) t bl ot bt) in
      let high_most : 2 ^ n * weight top u ≤ 2 ^ (top - suc l) =
        subst (λ i. 2 ^ i * weight top u ≤ 2 ^ (top - suc l)) (omega arith)
          (weight-most top (suc l) u bl ou bu) in
      satcount_sum-exact fp exact s root m n (weight top t) (weight top u) (rw (lt, e) refl)
        (rw (lu, e) refl) (omega (arith, most_t, few_levels)) (omega (arith, most_u, few_levels))
        (omega (arith, low_most, high_most, half))

  satcount_rec-weight :
      (t : Tree) (fuel root : ℕ) (c : Cache)
      → Rep s root t
      → IsOrdered 0 t
      → IsBelow top t
      → height t < fuel
      → Sound (CountEntry top s) c
      → (c' : Cache) × (satcount_rec fp fuel root (with_misc s c)
          ≡ done (weight top t) (with_misc s c'))
        × Sound (CountEntry top s) c'
  satcount_rec-weight t zero root c r o below few k = absurd (omega arith)
  satcount_rec-weight (leaf b) (suc fuel) root c r o below few k = (c, run_const fuel root b c r, k)
  satcount_rec-weight (node l t u) (suc fuel) root c (live, e, rt, ru) (le, ot, ou) (bl, bt, bu) few
        k =
      let v = node l t u in
      elim (Option-cases (cached_in c (hash1 root) (fits root))) [
        | inr (res, hit) ↦
            let (i, g, fit, out) = hit_entry c (hash1 root) res (fits root) hit in
            let entry = c.table i in
            let ea : entry.a ≡ root = ground arith in
            let ec : entry.c ≡ cacheid_satcou = ground arith in
            let (w, rw', count) = k.entries i g ec in
            let same : w ≡ v =
              Rep-functional s w v root (subst (λ x. Rep s x w) ea rw') (live, e, rt, ru) in
            let right : res ≡ weight top v = sym out ∙ count ∙ ap (weight top) same in
            (
              c,
              run_hit fuel root res c live.0 hit ∙ ap (λ (n : ℕ). done n (with_misc s c)) right,
              k,
            )
        | inl miss ↦
            let (c1, e1, k1) =
              satcount_rec-weight t fuel (s.nodes root).low c rt (IsOrdered-weaken (suc l) t ot) bt
                (omega arith) k in
            let (c2, e2, k2) =
              satcount_rec-weight u fuel (s.nodes root).high c1 ru (IsOrdered-weaken (suc l) u ou)
                bu (omega arith) k1 in
            let lt = level-start (s.nodes root).low t rt in
            let lu = level-start (s.nodes root).high u ru in
            let sum = sum-weight root l t u e lt lu bl bt bu ot ou in
            (
              written root (weight top v) c2,
              run_miss fuel root (weight top t) (weight top u) c c1 c2 live.0 miss e1 e2
                  ∙ ap (λ (n : ℕ). done n (with_misc s (written root n c2))) sum,
              Sound-put (hash1 root)
                  (record (lookup c2 (hash1 root)) {
                    a = root;
                    c = cacheid_satcou;
                    res = weight top v;
                  })
                  (λ g h. (v, (live, e, rt, ru), refl)) k2,
            )
      ]

Rep-IsBelow :
    {top : ℕ} {s : Kernel} (t : Tree) (n : ℕ) → WellFormed top s → Rep s n t → IsBelow top t
Rep-IsBelow (leaf b) n w r = tt
Rep-IsBelow {top} {s} (node l t u) n w (live, e, a, b) = (
  omega (arith, (w.live n live).level, e),
  Rep-IsBelow t (s.nodes n).low w a,
  Rep-IsBelow u (s.nodes n).high w b,
)

-- Let `double` represent the whole numbers up to 2^53 exactly, and let at most 53 levels be in use.
-- In a running, well-formed table whose constants stand right behind the levels in use, with counts in
-- `misccache` that are right and fuel above the number of levels, `bdd_satcount` of a BDD with a truth
-- function returns the number of assignments of the levels in use that make the function true, all
-- other levels being false. Only `misccache` changes, and its counts are right again.
pub bdd_satcount-models :
    (fp : Doubles) {top : ℕ} (s : Kernel) (fuel r : ℕ) (f : Assignment → Bool)
    → IsExact fp
    → top ≤ 53
    → WellFormed top s
    → s.running ≡ true
    → ((n : ℕ) → n < 2 → (s.nodes n).level ≡ top)
    → Sound (CountEntry top s) s.caches.misc
    → Denotes s r f
    → top < fuel
    → (c : Cache) × (bdd_satcount fp fuel r s ≡ done (value (models top 0 f)) (with_misc s c))
      × Sound (CountEntry top s) c
unfolding bdd_satcount
bdd_satcount-models fp {top} s fuel r f exact few_levels w run consts k (t, rep, same) few =
    let small : height t ≤ top =
      let (t', rep', h) = unfold_tree r w (Rep-Ok s r t rep) in
      subst (λ x. height x ≤ top) (Rep-functional s t' t r rep' rep) h in
    let o = Rep-IsOrdered t r 0 w rep (inr (omega arith)) in
    let below = Rep-IsBelow t r w rep in
    let (c, e, k') =
      satcount_rec-weight fp exact few_levels s consts t fuel r s.caches.misc rep o below
        (omega arith) k in
    let whole : (n : ℕ) → n ≡ n - 0 = λ n. omega arith in
    let begin : (s.nodes r).level ≡ start top t =
      level-start fp exact few_levels s consts r t rep in
    let most : 2 ^ start top t * weight top t ≤ exact_up_to = omega (
      arith,
      ap (λ (n : ℕ). 2 ^ n * weight top t) (whole (start top t)),
      weight-most top 0 t (omega arith) o below,
      power-most (top - 0) (omega (arith, few_levels)),
    ) in
    let count : fp.times (fp.pow2 (s.nodes r).level) (weight top t) ≡ models top 0 f =
      ap (λ (n : ℕ). fp.times (fp.pow2 n) (weight top t)) begin
      ∙ times-exact fp exact (start top t) (weight top t)
          (omega (arith, start-most t below, few_levels)) most
      ∙ ap (λ (n : ℕ). 2 ^ n * weight top t) (whole (start top t))
      ∙ sym (models-weight top top 0 t (omega arith) o below)
      ∙ models-same top 0 (eval t) f same in
    let block : Cmd Answer = λ x.
      and_then (satcount_rec fp fuel r x) (λ n. done (value (fp.times (fp.pow2 (level x r)) n))) in
    (
      c,
      checka-Ok r block w run (Rep-Ok s r t rep)
          ∙ ap (λ o. and_then o (λ n s'. done (value (fp.times (fp.pow2 (level s r)) n)) s')) e
          ∙ ap (λ (n : ℕ). done (value n) (with_misc s c)) count,
      k',
    )
