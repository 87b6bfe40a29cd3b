-- ===== src/Kernel/Protected.antt =====
-- Which nodes a garbage collection must keep, and what it means that a call kept them.
use mo_to_buddy.Prelude.{ℕ, ◌≤◌, ◌<◌, ◌≡◌, sym, ◌∙◌, subst, inl, inr, Among, arith, dec_lt, refl}
use mo_to_buddy.Kernel.{Node, Kernel}
use mo_to_buddy.Kernel.WellFormed.{Live, Ok, WellFormed}

-- Constants, the nodes on the reference stack, those with references, and what they lead to.
pub data Protected (s : Kernel) : ℕ → Type 0 where
  constant : {n : ℕ} → n < 2 → Protected s n
  stacked : {n : ℕ} → Among n s.refstack → Protected s n
  counted : {n : ℕ} → n < s.nodesize → 0 < (s.nodes n).refcou → Protected s n
  by_low :
      {n m : ℕ} → Protected s n → Live s.nodesize s.nodes n → m ≡ (s.nodes n).low → Protected s m
  by_high :
      {n m : ℕ} → Protected s n → Live s.nodesize s.nodes n → m ≡ (s.nodes n).high → Protected s m

pub record SameNode (a b : Node) : Type 0 where
  pub level : b.level ≡ a.level
  pub low : b.low ≡ a.low
  pub high : b.high ≡ a.high
  pub refcou : b.refcou ≡ a.refcou

-- Every protected node stayed as it was.
pub record Keeps (s s' : Kernel) : Type 0 where
  pub node : (n : ℕ) → Protected s n → 1 < n → SameNode (s.nodes n) (s'.nodes n)
  pub const : (n : ℕ) → n < 2 → SameNode (s.nodes n) (s'.nodes n)
  pub stack : s'.refstack ≡ s.refstack
  pub slots : s'.refslots ≡ s.refslots
  pub size : s.nodesize ≤ s'.nodesize
  pub varnum : s'.varnum ≡ s.varnum

pub Protected-Ok :
    {top : ℕ} {s : Kernel} → WellFormed top s → {n : ℕ} → Protected s n → Ok s.nodesize s.nodes n
Protected-Ok w (constant h) = inl h
Protected-Ok w (stacked {n} m) = w.stacked n m
Protected-Ok w (counted {n} h r) = elim (dec_lt n 2) [
  | yes c ↦ inl c
  | no big ↦ inr (omega arith, h, w.counted n (omega arith) h r)
]
Protected-Ok {s} w (by_low {n} p l e) = subst (Ok s.nodesize s.nodes) (sym e) ((w.live n l).low_ok)
Protected-Ok {s} w (by_high {n} p l e) =
    subst (Ok s.nodesize s.nodes) (sym e) ((w.live n l).high_ok)

pub Live-Keeps :
    {s s' : Kernel} (k : Keeps s s') (n : ℕ)
    → Protected s n
    → Live s.nodesize s.nodes n
    → Live s'.nodesize s'.nodes n
Live-Keeps k n p (h, lt, ne) = (h, omega (arith, k.size), λ e. ne (sym ((k.node n p h).low) ∙ e))

-- What was protected still is.
pub Protected-Keeps : {s s' : Kernel} → Keeps s s' → {n : ℕ} → Protected s n → Protected s' n
Protected-Keeps k (constant h) = constant h
Protected-Keeps k (stacked {n} m) = stacked (subst (Among n) (sym k.stack) m)
Protected-Keeps k (counted {n} h r) = elim (dec_lt n 2) [
  | yes c ↦ constant c
  | no big ↦
      let same = k.node n (counted h r) (omega arith) in
      counted (omega (arith, k.size)) (omega (arith, same.refcou))
]
Protected-Keeps k (by_low {n} p l e) =
    by_low (Protected-Keeps k p) (Live-Keeps k n p l) (e ∙ sym ((k.node n p l.0).low))
Protected-Keeps k (by_high {n} p l e) =
    by_high (Protected-Keeps k p) (Live-Keeps k n p l) (e ∙ sym ((k.node n p l.0).high))

pub Keeps-refl : (s : Kernel) → Keeps s s
Keeps-refl s = record {
  node = λ n p h. record { level = refl; low = refl; high = refl; refcou = refl };
  const = λ n h. record { level = refl; low = refl; high = refl; refcou = refl };
  stack = refl;
  slots = refl;
  size = omega arith;
  varnum = refl;
}

pub SameNode-trans : {a b c : Node} → SameNode a b → SameNode b c → SameNode a c
SameNode-trans x y = record {
  level = y.level ∙ x.level;
  low = y.low ∙ x.low;
  high = y.high ∙ x.high;
  refcou = y.refcou ∙ x.refcou;
}

pub Keeps-trans : {s t u : Kernel} → Keeps s t → Keeps t u → Keeps s u
Keeps-trans a b = record {
  node = λ n p h. SameNode-trans (a.node n p h) (b.node n (Protected-Keeps a p) h);
  const = λ n h. SameNode-trans (a.const n h) (b.const n h);
  stack = b.stack ∙ a.stack;
  slots = b.slots ∙ a.slots;
  size = omega (arith, a.size, b.size);
  varnum = b.varnum ∙ a.varnum;
}
