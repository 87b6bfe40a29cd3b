-- ===== src/Session/Perform.antt =====
-- A client of src/bddop.c and src/kernel.c that makes BDDs from those that it holds, and drops them.
pub mod Operand
pub mod Refines
pub mod Canonical
use mo_to_buddy.Prelude.{[], ℕ, zero, suc, Bool, false, not, some, List, ◌∷◌, if◌then◌else◌}
use mo_to_buddy.Tree.{Assignment}
use mo_to_buddy.Kernel.{Kernel, done, Cmd, ◌>>=◌}
use mo_to_buddy.Kernel.Refs.{addref, delref}
use mo_to_buddy.Kernel.Gbc.{gbc}
use mo_to_buddy.Kernel.Settings.{
  Answer, value, err_var, err_range, err_running, err_nodes, err_ill_bdd, err_size, err_op, err_set,
}
use mo_to_buddy.Op.{Op}
use mo_to_buddy.Op.Ready.{op_bool}
use mo_to_buddy.Op.Call.{bdd_not, bdd_apply, bdd_ite}

-- The operands are positions in the list of what is held.
pub data Action : Type 0 where
  negate : ℕ → Action
  combine : Op → ℕ → ℕ → Action
  choose : ℕ → ℕ → ℕ → Action
  drop : ℕ → Action
  collect : Action

-- What is at a position, or else a default.
abbrev pub item : {A : Type 0} → A → List A → ℕ → A
item d [] i = d
item d (x ∷ xs) zero = x
item d (x ∷ xs) (suc i) = item d xs i

abbrev pub without : {A : Type 0} → List A → ℕ → List A
without [] i = []
without (x ∷ xs) zero = xs
without (x ∷ xs) (suc i) = x ∷ without xs i

-- What the actions mean: they compute with truth functions.
abbrev pub meaning : Action → List (Assignment → Bool) → List (Assignment → Bool)
meaning (negate i) fs = (λ ρ. not (item (λ _. false) fs i ρ)) ∷ fs
meaning (combine op i j) fs =
    (λ ρ. op_bool op (item (λ _. false) fs i ρ) (item (λ _. false) fs j ρ)) ∷ fs
meaning (choose i j k) fs =
    (λ ρ. if item (λ _. false) fs i ρ then item (λ _. false) fs j ρ else item (λ _. false) fs k ρ)
    ∷ fs
meaning (drop i) fs = without fs i
meaning collect fs = fs

-- A result is counted and held; after an error nothing new is.
unfoldable pub keep : List ℕ → Answer → Cmd (List ℕ)
keep held (value r) s = done (r ∷ held) (addref r s).1
keep held err_var s = done held s
keep held err_range s = done held s
keep held err_running s = done held s
keep held err_nodes s = done held s
keep held err_ill_bdd s = done held s
keep held err_size s = done held s
keep held err_op s = done held s
keep held err_set s = done held s

module _ (prime_gte : ℕ → ℕ) (cacheratio : ℕ) (reorder_auto : Kernel → Kernel)
    (reorder_gain : Kernel → ℕ) (prime_lte : ℕ → ℕ) (fuel : ℕ) where
  unfoldable pub perform : Action → List ℕ → Cmd (List ℕ)
  unfolding keep
  perform (negate i) held =
      bdd_not prime_gte cacheratio reorder_auto reorder_gain prime_lte fuel (item 0 held i)
      >>= keep held
  perform (combine op i j) held =
      bdd_apply prime_gte cacheratio reorder_auto reorder_gain prime_lte fuel (item 0 held i)
        (item 0 held j) (some op)
      >>= keep held
  perform (choose i j k) held =
      bdd_ite prime_gte cacheratio reorder_auto reorder_gain prime_lte fuel (item 0 held i)
        (item 0 held j) (item 0 held k)
      >>= keep held
  perform (drop i) held = λ s. done (without held i) (delref (item 0 held i) s).1
  perform collect held = gbc >>= λ _. done held

  unfoldable pub perform_all : List Action → List ℕ → Cmd (List ℕ)
  unfolding perform
  perform_all [] held = done held
  perform_all (act ∷ acts) held = perform act held >>= perform_all acts

abbrev pub meaning_all : List Action → List (Assignment → Bool) → List (Assignment → Bool)
meaning_all [] fs = fs
meaning_all (act ∷ acts) fs = meaning_all acts (meaning act fs)
