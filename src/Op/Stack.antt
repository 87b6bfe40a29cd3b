-- ===== src/Op/Stack.antt =====
-- The reference stack while an operator recurs: pushed results stay, and the frame of a call is as
-- it was.
use mo_to_buddy.Prelude.{
  ℕ, suc, ◌≤◌, ◌<◌, ◌≡◌, refl, sym, ◌∙◌, ap, subst, inr, true, false, List, ◌∷◌, length, get_or,
  ltb, Among, arith, dec_lt,
}
use mo_to_buddy.Tree.{Tree, leaf, node}
use mo_to_buddy.Kernel.{Kernel, done, Cmd}
use mo_to_buddy.Kernel.WellFormed.{Live, Ok, WellFormed, WellFormed-over}
use mo_to_buddy.Kernel.Protected.{
  Protected, constant, stacked, counted, by_low, by_high, SameNode, SameNode-trans, Keeps,
}
use mo_to_buddy.Kernel.Refs.{pushref, readref, popref}
use mo_to_buddy.Represents.{Rep}
use mo_to_buddy.Op.{join_with}

-- The state with another reference stack.
abbrev pub restack : Kernel → List ℕ → Kernel
restack s xs = record s { refstack = xs }

abbrev pub push : ℕ → Kernel → Kernel
push a s = restack s (a ∷ s.refstack)

pub restack-WellFormed :
    {top : ℕ} {s : Kernel} (xs : List ℕ)
    → WellFormed top s
    → ((n : ℕ) → Among n xs → Ok s.nodesize s.nodes n)
    → WellFormed top (restack s xs)
restack-WellFormed {top} {s} xs w ok =
    WellFormed-over (restack s xs) w (omega arith) w.top_max w.top_varnum ok

-- Protected nodes stayed as they were, and so did what is on the stack.
pub record Retains (s s' : Kernel) : Type 0 where
  pub node : (n : ℕ) → Protected s n → 1 < n → SameNode (s.nodes n) (s'.nodes n)
  pub const : (n : ℕ) → n < 2 → SameNode (s.nodes n) (s'.nodes n)
  pub stack : (n : ℕ) → Among n s.refstack → Among n s'.refstack
  pub size : s.nodesize ≤ s'.nodesize

pub Keeps-Retains : {s s' : Kernel} → Keeps s s' → Retains s s'
Keeps-Retains k = record {
  node = k.node;
  const = k.const;
  stack = λ n m. subst (Among n) (sym k.stack) m;
  size = k.size;
}

pub Live-Retains :
    {s s' : Kernel} (k : Retains s s') (n : ℕ)
    → Protected s n
    → Live s.nodesize s.nodes n
    → Live s'.nodesize s'.nodes n
Live-Retains k n p (h, lt, ne) = (h, omega (arith, k.size), λ e. ne (sym ((k.node n p h).low) ∙ e))

pub Protected-Retains : {s s' : Kernel} → Retains s s' → {n : ℕ} → Protected s n → Protected s' n
Protected-Retains k (constant h) = constant h
Protected-Retains k (stacked {n} m) = stacked (k.stack n m)
Protected-Retains k (counted {n} h r) = elim (dec_lt n 2) [
  | yes c ↦ constant c
  | no big ↦
      let same = k.node n (counted h r) (omega arith) in
      counted (omega (arith, k.size)) (omega (arith, same.refcou))
]
Protected-Retains k (by_low {n} p l e) =
    by_low (Protected-Retains k p) (Live-Retains k n p l) (e ∙ sym ((k.node n p l.0).low))
Protected-Retains k (by_high {n} p l e) =
    by_high (Protected-Retains k p) (Live-Retains k n p l) (e ∙ sym ((k.node n p l.0).high))

pub Retains-trans : {s t u : Kernel} → Retains s t → Retains t u → Retains s u
Retains-trans a b = record {
  node = λ n p h. SameNode-trans (a.node n p h) (b.node n (Protected-Retains a p) h);
  const = λ n h. SameNode-trans (a.const n h) (b.const n h);
  stack = λ n m. b.stack n (a.stack n m);
  size = omega (arith, a.size, b.size);
}

-- The nodes of two states are the same.
pub same_nodes-Retains :
    (s : Kernel) (xs : List ℕ)
    → ((n : ℕ) → Among n s.refstack → Among n xs)
    → Retains s (restack s xs)
same_nodes-Retains s xs m = record {
  node = λ n p h. record { level = refl; low = refl; high = refl; refcou = refl };
  const = λ n h. record { level = refl; low = refl; high = refl; refcou = refl };
  stack = m;
  size = omega arith;
}

pub push-Retains : (s : Kernel) (a : ℕ) → Retains s (push a s)
push-Retains s a = same_nodes-Retains s (a ∷ s.refstack) (λ n m. inr m)

pub Rep-Retains :
    {s s' : Kernel} (t : Tree) (n : ℕ) → Retains s s' → Protected s n → Rep s n t → Rep s' n t
Rep-Retains (leaf b) n k p r = r
Rep-Retains {s} {s'} (node l t u) n k p (live, e, a, b) =
    let same = k.node n p live.0 in
    (
      Live-Retains k n p live,
      same.level ∙ e,
      subst (λ c. Rep s' c t) (sym same.low)
          (Rep-Retains t (s.nodes n).low k (by_low p live refl) a),
      subst (λ c. Rep s' c u) (sym same.high)
          (Rep-Retains u (s.nodes n).high k (by_high p live refl) b),
    )

pub push_step :
    (a : ℕ) (s : Kernel) → length s.refstack < s.refslots → pushref a s ≡ done a (push a s)
unfolding pushref
push_step a s room = let e : ltb (length s.refstack) s.refslots ≡ true = ground arith in rw e refl

pop_step :
    (a b : ℕ) (st : List ℕ) (s : Kernel)
    → s.refstack ≡ b ∷ a ∷ st
    → popref 2 s ≡ done tt (restack s st)
unfolding popref
pop_step a b st s e =
    let enough : ltb (suc (suc (length st))) 2 ≡ false = ground arith in rw (e, enough) refl

module _ (combine : ℕ → ℕ → Cmd ℕ) (first second : Cmd ℕ) (a b res : ℕ) (s s1 s2 s3 : Kernel)
    (st : List ℕ) where
  -- What a join does, given what its parts do.
  pub join_run :
      first s ≡ done a s1
      → length s1.refstack < s1.refslots
      → second (push a s1) ≡ done b s2
      → s2.refstack ≡ a ∷ st
      → length s2.refstack < s2.refslots
      → combine a b (push b s2) ≡ done res s3
      → s3.refstack ≡ b ∷ a ∷ st
      → join_with combine first second s ≡ done res (restack s3 st)
  unfolding join_with
  join_run e1 r1 e2 k2 r2 e3 k3 =
      let top_two : combine (readref 2 (push b s2)) (readref 1 (push b s2)) (push b s2)
          ≡ done res s3 =
        ap (λ (xs : List ℕ). combine (get_or xs 0 0) b (push b s2)) k2 ∙ e3 in
      rw (e1, push_step a s1 r1, e2, push_step b s2 r2, top_two, pop_step a b st s3 k3) refl
