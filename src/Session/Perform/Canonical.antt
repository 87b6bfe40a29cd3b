-- ===== src/Session/Perform/Canonical.antt =====
-- A client decides equivalence by comparing the numbers that the calls of src/bddop.c return.
use mo_to_buddy.Prelude.{
  ℕ, ◌<◌, ◌≡◌, ◌≢◌, sym, ◌∙◌, subst, ◌⊎◌, ◌↔◌, inl, inr, Bool, false, List, map, ℕ_discrete,
}
use mo_to_buddy.Tree.{Assignment}
use mo_to_buddy.Kernel.{Kernel, done}
use mo_to_buddy.Kernel.WellFormed.{WellFormed}
use mo_to_buddy.Kernel.Makenode.Resize.{FindsPrimes}
use mo_to_buddy.Represents.{Denotes}
use mo_to_buddy.Represents.Canonicity.{canonicity}
use mo_to_buddy.Session.{Ref, Session, nth}
use mo_to_buddy.Session.Perform.{Action, item, meaning_all, perform_all}
use mo_to_buddy.Session.Perform.Operand.{nth-Denotes}
use mo_to_buddy.Session.Perform.Refines.{bdds, truths, item-bdds, item-truths, perform_all-Refined}

-- At two positions the numbers are the same exactly if the truth functions are.
abbrev pub IsCanonical : List ℕ → List (Assignment → Bool) → Type 0
IsCanonical bs fs =
    (i j : ℕ)
    → (item 0 bs i ≡ item 0 bs j)
      ↔ ((ρ : Assignment) → item (λ _. false) fs i ρ ≡ item (λ _. false) fs j ρ)

-- Two BDDs with truth functions are one node exactly if these are one function.
same_node :
    {top : ℕ} {s : Kernel} (m n : ℕ) (f g : Assignment → Bool)
    → WellFormed top s
    → Denotes s m f
    → Denotes s n g
    → (m ≡ n) ↔ ((ρ : Assignment) → f ρ ≡ g ρ)
same_node m n f g w (t, rt, ft) (u, ru, gu) =
    let (to, back) = canonicity t u m n w rt ru in
    (λ e ρ. sym (ft ρ) ∙ to e ρ ∙ gu ρ, λ same. back (λ ρ. ft ρ ∙ same ρ ∙ sym (gu ρ)))

held-IsCanonical :
    {top : ℕ} {s : Kernel} (held : List Ref)
    → Session top s held
    → s.errorcond ≡ 0
    → IsCanonical (bdds held) (truths held)
held-IsCanonical {top} {s} held h z i j =
    rw (item-bdds held i, item-bdds held j, item-truths held i, item-truths held j)
      (same_node (nth held i).bdd (nth held j).bdd (nth held i).truth (nth held j).truth
        h.ready.well (nth-Denotes s held i (h.truths z)) (nth-Denotes s held j (h.truths z)))

module _ (prime_gte : ℕ → ℕ) (ratio : ℕ) (reorder_auto : Kernel → Kernel) (gain : Kernel → ℕ)
    (prime_lte : ℕ → ℕ) (primes : FindsPrimes prime_lte) (fuel : ℕ) where
  -- Let a client hold counted BDDs in a running package in which operators may be called, and let it
  -- negate, combine, choose, drop and collect in any order, with fuel above the number of levels. Then
  -- the calls return, and unless an error occurred any two of the numbers that the client holds are
  -- equal exactly if the truth functions computed for them by the same actions are.
  pub perform_all-IsCanonical :
      {top : ℕ} (s : Kernel) (held : List Ref) (acts : List Action)
      → Session top s held
      → top < fuel
      → (bs : List ℕ) × (s' : Kernel) × (perform_all prime_gte ratio reorder_auto gain prime_lte
            fuel acts
            (map (λ (x : Ref). x.bdd) held)
            s
          ≡ done bs s')
        × ((s'.errorcond ≢ 0) ⊎ IsCanonical bs (meaning_all acts (map (λ (x : Ref). x.truth) held)))
  perform_all-IsCanonical {top} s held acts h few =
      let (held', s', run, h', same) =
        perform_all-Refined prime_gte ratio reorder_auto gain prime_lte primes fuel s held acts h
          few in
      (
        bdds held',
        s',
        run,
        elim (ℕ_discrete s'.errorcond 0) [
          | no failed ↦ inl failed
          | yes z ↦ inr (subst (IsCanonical (bdds held')) same (held-IsCanonical held' h' z))
        ],
      )
