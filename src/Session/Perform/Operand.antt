-- ===== src/Session/Perform/Operand.antt =====
-- What is known of the BDDs that a client passes to an operator.
use mo_to_buddy.Prelude.{
  ℕ, zero, suc, ◌≤◌, ◌<◌, ◌≡◌, refl, ◌∙◌, ap, ◌⊎◌, inl, inr, Bool, false, List, [], ◌∷◌, arith,
  dec_lt,
}
use mo_to_buddy.Tree.{Tree, leaf, height, Assignment, eval}
use mo_to_buddy.Kernel.{Kernel}
use mo_to_buddy.Kernel.WellFormed.{Ok}
use mo_to_buddy.Represents.{Denotes}
use mo_to_buddy.Represents.Unfold.{unfold_tree, Rep-IsOrdered}
use mo_to_buddy.Represents.Canonicity.{Rep-functional}
use mo_to_buddy.Represents.Frame.{Rep-Extends}
use mo_to_buddy.Op.Cofactor.{Arg}
use mo_to_buddy.Op.Call.{initref}
use mo_to_buddy.Session.{Ref, owners, AllTrue, Session, nth}
use mo_to_buddy.Session.Held.{held-Protected}

nth-owned : (held : List Ref) (i : ℕ) → ((nth held i).bdd < 2) ⊎ (0 < owners (nth held i).bdd held)
nth-owned [] i = inl (omega arith)
nth-owned (x ∷ held) zero = inr (ground arith)
nth-owned (x ∷ held) (suc i) = elim (nth-owned held i) [ inl c ↦ inl c | inr p ↦ inr (omega arith) ]

pub nth-Denotes :
    (s : Kernel) (held : List Ref) (i : ℕ)
    → AllTrue s held
    → Denotes s (nth held i).bdd (nth held i).truth
nth-Denotes s [] i a = (leaf false, refl, λ ρ. refl)
nth-Denotes s (x ∷ held) zero (d, a) = d
nth-Denotes s (x ∷ held) (suc i) (d, a) = nth-Denotes s held i a

-- A BDD that is held, once the reference stack was emptied: its tree has the truth function that it
-- is held for, unless an error occurred.
pub record Operand (top : ℕ) (s : Kernel) (r : ℕ) (f : Assignment → Bool) : Type 0 where
  pub tree : Tree
  pub ok : Ok s.nodesize s.nodes r
  pub arg : Arg (initref s) 0 r tree
  pub small : height tree ≤ top
  pub right : s.errorcond ≡ 0 → (ρ : Assignment) → eval tree ρ ≡ f ρ

pub operand :
    {top : ℕ} {s : Kernel} {held : List Ref} (i : ℕ)
    → Session top s held
    → Operand top s (nth held i).bdd (nth held i).truth
operand {top} {s} {held} i h =
    let r = (nth held i).bdd in
    let own = nth-owned held i in
    let ok : Ok s.nodesize s.nodes r = elim (dec_lt r 2) [
      | yes c ↦ inl c
      | no big ↦ elim own [ inl c ↦ inl c | inr o ↦ inr ((h.counted r (omega arith) o).0) ]
    ] in
    let (t, rep, small) = unfold_tree r h.ready.well ok in
    record {
      tree = t;
      ok = ok;
      arg = record {
        rep =
            Rep-Extends s (initref s) t r
              (λ n l. (l, record { level = refl; low = refl; high = refl })) rep;
        held = held-Protected r [] h own;
        ordered = Rep-IsOrdered t r 0 h.ready.well rep (inr (omega arith));
      };
      small = small;
      right = λ z ρ.
          let (t', rep', same) = nth-Denotes s held i (h.truths z) in
          ap (λ v. eval v ρ) (Rep-functional s t t' r rep rep') ∙ same ρ;
    }
