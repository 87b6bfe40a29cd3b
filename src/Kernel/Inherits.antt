-- ===== src/Kernel/Inherits.antt =====
-- A table whose nodes in use are nodes of an earlier table: what a collection and a growth of the
-- table of src/kernel.c have in common.
use mo_to_buddy.Prelude.{ℕ, ◌<◌, sym, ◌∙◌, inl, inr, arith}
use mathlib.Core.Logic.{⊎_elim}
use mo_to_buddy.Kernel.{Nodes}
use mo_to_buddy.Kernel.WellFormed.{Live, Ok, Beyond, AllOk, Unique}
use mo_to_buddy.Kernel.Protected.{SameNode}

-- The nodes in use in the second table are those of the first with `P`, unchanged; a node passes
-- `P` to its children.
pub record Inherits (size : ℕ) (nodes : Nodes) (size' : ℕ) (nodes' : Nodes) (P : ℕ → Type 0)
    : Type 0 where
  pub down : (n : ℕ) → Live size' nodes' n → Live size nodes n × SameNode (nodes n) (nodes' n) × P n
  pub up : (n : ℕ) → Live size nodes n → P n → Live size' nodes' n
  pub children : (n : ℕ) → Live size nodes n → P n → P (nodes n).low × P (nodes n).high

module _ {size size' : ℕ} {nodes nodes' : Nodes} {P : ℕ → Type 0}
    (i : Inherits size nodes size' nodes' P) where
  pub Ok-Inherits : (n : ℕ) → P n → Ok size nodes n → Ok size' nodes' n
  Ok-Inherits n p o = ⊎_elim inl (λ l. inr (i.up n l p)) o

  Beyond-Inherits : (l n : ℕ) → P n → Ok size nodes n → Beyond nodes l n → Beyond nodes' l n
  Beyond-Inherits l n p (inl c) b = inl c
  Beyond-Inherits l n p (inr o) b =
      let (old, same, q) = i.down n (i.up n o p) in
      ⊎_elim inl (λ (c : l < (nodes n).level). inr (omega (arith, same.level))) b

  pub AllOk-Inherits : {top : ℕ} → AllOk top size nodes → AllOk top size' nodes'
  AllOk-Inherits live n l =
      let (old, same, p) = i.down n l in
      let good = live n old in
      let (lo, hi) = i.children n old p in
      record {
        level = omega (arith, same.level, good.level);
        low_ok = rw same.low (Ok-Inherits _ lo good.low_ok);
        high_ok = rw same.high (Ok-Inherits _ hi good.high_ok);
        low_beyond = rw (same.low, same.level) (Beyond-Inherits _ _ lo good.low_ok good.low_beyond);
        high_beyond =
            rw (same.high, same.level) (Beyond-Inherits _ _ hi good.high_ok good.high_beyond);
        differ = λ e. good.differ (sym same.low ∙ e ∙ same.high);
      }

  pub Unique-Inherits : Unique size nodes → Unique size' nodes'
  Unique-Inherits unique m n lm ln a b c =
      let (om, sm, pm) = i.down m lm in
      let (on, sn, pn) = i.down n ln in
      unique m n om on (sym sm.level ∙ a ∙ sn.level) (sym sm.low ∙ b ∙ sn.low)
        (sym sm.high ∙ c ∙ sn.high)
