-- ===== src/Kernel/Gbc/Sweep.antt =====
-- The rehashing loops of `bdd_gbc` and `bdd_gbc_rehash`: every kept node ends up in its bucket, and
-- all others on the free list.
pub mod Whole
use mo_to_buddy.Prelude.{
  ℕ, zero, suc, ◌+◌, ◌≤◌, ◌<◌, ◌≡◌, ◌≢◌, refl, sym, ◌∙◌, ap, subst, ◌⊎◌, inl, inr, Bool, true,
  false, arith, Bool-cases, ℕ_discrete,
}
use mo_to_buddy.Hash.{hash_range-lt}
use mo_to_buddy.Terminal.{maxlevel, Terminals}
use mo_to_buddy.Kernel.{Node, Nodes, update, Kernel, invalid, bucket_of}
use mo_to_buddy.Kernel.Partition.{
  home, Partition, Partition-frame, link, release, SameFields, link-fields, link-Partition,
  release-Partition,
}
use mo_to_buddy.Kernel.Gbc.{is_kept, tidy, discard, rehash_node, rehash}
use mo_to_buddy.Kernel.Gbc.Tidied.{
  after, SameFields-trans, kept_same, tidy_fields, discard_fields, discard_head, update_self,
  update_ne, release_fields, tidied_links, bucket_of-home,
}

suc_add : (n : ℕ) → n + 1 ≡ suc n
suc_add n = omega arith

zero_two : 0 + 2 ≡ 2
zero_two = omega arith

-- A state that differs from `s` at most in what the loops write.
abbrev pub rebuilt : Kernel → Kernel → Kernel
rebuilt s t = record s {
  nodes = t.nodes;
  freepos = t.freepos;
  freenum = t.freenum;
  terminals = t.terminals;
}

module _ (collect : Bool) (base : Nodes) (size : ℕ) (start : Kernel)
    (size_eq : start.nodesize ≡ size) (size_min : 2 ≤ size) (size_max : size < invalid)
    (levels : (n : ℕ)
      → 1 < n
      → n < size
      → is_kept collect (base n) ≡ true
      → (base n).level < maxlevel) where
  -- The nodes from `lo` on that the loop keeps, or not.
  abbrev pub Range : ℕ → Bool → ℕ → Type 0
  Range lo b n = (lo ≤ n) × (n < size) × (is_kept collect (base n) ≡ b)

  pub record Swept (lo : ℕ) (s : Kernel) : Type 0 where
    pub part : Partition size s.nodes (Range lo true) (Range lo false) s.freepos s.freenum
    pub past : (n : ℕ) → lo ≤ n → n < size → SameFields (after collect (base n)) (s.nodes n)
    pub todo : (n : ℕ) → n < lo → SameFields (base n) (s.nodes n)
    pub rest : s ≡ rebuilt start s

  home_lt : (nodes : Nodes) (n : ℕ) → home size nodes n < size
  home_lt nodes n = hash_range-lt _ size (omega arith) (omega arith)

  module _ (n : ℕ) (lower : 1 < n) (upper : n < size) (s : Kernel) (swept : Swept (suc n) s) where
    abbrev old : Node
    old = s.nodes n

    abbrev tidied : Nodes
    tidied = update s.nodes n (tidy collect old)

    Range-down : (b : Bool) (m : ℕ) → Range (suc n) b m → Range n b m
    Range-down b m (le, lt, k) = (omega arith, lt, k)

    Range-up : (b : Bool) (m : ℕ) → Range n b m → (m ≡ n) ⊎ Range (suc n) b m
    Range-up b m (le, lt, k) = elim (ℕ_discrete m n) [
      | yes e ↦ inl e
      | no ne ↦ inr (omega arith, lt, k)
    ]

    other_up :
        (b c : Bool)
        → is_kept collect (base n) ≡ b
        → b ≢ c
        → (m : ℕ) → Range n c m
        → Range (suc n) c m
    other_up b c k ne m (le, lt, r) = elim (ℕ_discrete m n) [
      | yes e ↦ absurd (ne (sym k ∙ ap (λ a. is_kept collect (base a)) (sym e) ∙ r))
      | no d ↦ (omega arith, lt, r)
    ]

    not_in : (b : Bool) → ¬ Range (suc n) b n
    not_in b (le, lt, k) = absurd (omega arith)

    others_same :
        (nodes : Nodes) (m : ℕ)
        → m ≢ n
        → nodes m ≡ s.nodes m
        → n ≤ m
        → m < size
        → SameFields (after collect (base m)) (nodes m)
    others_same nodes m ne e le lt = rw e (swept.past m (omega arith) lt)

    tidied_part :
        is_kept collect (base n) ≡ true
        → Partition size tidied (Range (suc n) true) (Range n false) s.freepos s.freenum
    tidied_part k =
        Partition-frame size s.nodes tidied (Range (suc n) true) (Range (suc n) false)
          (Range (suc n) true) (Range n false)
          (λ m. let (a, b, c) = tidied_links collect size s.nodes n m in (a, b, λ l. c)) (λ m l. l)
          (λ m l. l) (Range-down false) (other_up true false k (cc)) swept.part

    tidied_past :
        is_kept collect (base n) ≡ true
        → (m : ℕ) → n ≤ m
        → m < size
        → SameFields (after collect (base m)) (tidied m)
    tidied_past k m le lt = elim (ℕ_discrete m n) [
      | yes e ↦
          subst (λ a. SameFields (after collect (base a)) (tidied a)) (sym e)
            (rw (update_self s.nodes n (tidy collect old))
              (rw k (tidy_fields collect (base n) old (swept.todo n (omega arith)))))
      | no ne ↦ others_same tidied m ne (update_ne s.nodes n m (tidy collect old) ne) le lt
    ]

    pub kept_step :
        is_kept collect (base n) ≡ true
        → Swept n (record s { nodes = link tidied (home size tidied n) n })
    kept_step k = record {
      part =
          link-Partition size tidied n (omega arith) (not_in true) (λ (le, lt, no_k). cc)
            (Range-up true) (Range-down true) (omega arith, upper, k) (tidied_part k)
            (home_lt tidied n);
      past = λ m le lt.
          SameFields-trans _ _ _ (tidied_past k m le lt)
            (link-fields tidied (home size tidied n) n m);
      todo = λ m lt.
          SameFields-trans _ _ _
            (subst (SameFields (base m))
              (sym (update_ne s.nodes n m (tidy collect old) (omega arith)))
              (swept.todo m (omega arith)))
            (link-fields tidied (home size tidied n) n m);
      rest =
          ap (λ (t : Kernel). record t { nodes = link tidied (home size tidied n) n }) swept.rest;
    }

    abbrev released : Nodes
    released = release s.nodes n (discard collect old) s.freepos

    released_past :
        is_kept collect (base n) ≡ false
        → (m : ℕ) → n ≤ m
        → m < size
        → SameFields (after collect (base m)) (released m)
    released_past k m le lt = elim (ℕ_discrete m n) [
      | yes e ↦
          subst (λ a. SameFields (after collect (base a)) (released a)) (sym e)
            (release_fields s.nodes n _ (discard collect old) s.freepos
              (rw k (discard_fields collect (base n) old (swept.todo n (omega arith)))))
      | no ne ↦ others_same released m ne (update_ne s.nodes n m _ ne) le lt
    ]

    pub freed_step :
        (terminals : Terminals)
        → is_kept collect (base n) ≡ false
        → Swept n (record s {
          nodes = released;
          freepos = n;
          freenum = suc s.freenum;
          terminals = terminals;
        })
    freed_step terminals k = record {
      part =
          release-Partition size s.nodes n (discard collect old) (omega arith)
            (λ (le, lt, yes_k). cc) (not_in false) (discard_head collect old) (Range-up false)
            (Range-down false) (omega arith, upper, k)
            (Partition-frame size s.nodes s.nodes (Range (suc n) true) (Range (suc n) false)
              (Range n true) (Range (suc n) false) (λ m. (refl, refl, λ l. refl)) (Range-down true)
              (other_up false true k (cc)) (λ m l. l) (λ m l. l) swept.part);
      past = released_past k;
      todo = λ m lt.
          subst (SameFields (base m)) (sym (update_ne s.nodes n m _ (omega arith)))
            (swept.todo m (omega arith));
      rest =
          ap
            (λ (t : Kernel). record t {
              nodes = released;
              freepos = n;
              freenum = suc s.freenum;
              terminals = terminals;
            })
            swept.rest;
    }

  bucket_eq :
      (n : ℕ) (s : Kernel)
      → 1 < n
      → n < size
      → Swept (suc n) s
      → is_kept collect (base n) ≡ true
      → bucket_of s (s.nodes n) ≡ home size (update s.nodes n (tidy collect (s.nodes n))) n
  bucket_eq n s lower upper swept k =
      let same_size : s.nodesize ≡ size = ap (λ (t : Kernel). t.nodesize) swept.rest ∙ size_eq in
      let same_level = (swept.todo n (omega arith)).level in
      bucket_of-home s s.nodes n (omega (arith, levels n lower upper k, same_level))
      ∙ ap (λ a. home a s.nodes n) same_size
      ∙ sym ((tidied_links collect size s.nodes n n).2)

  -- One round of the loop.
  pub rehash_node-Swept :
      (n : ℕ) (s : Kernel) → 1 < n → n < size → Swept (suc n) s → Swept n (rehash_node collect n s)
  unfolding rehash_node
  rehash_node-Swept n s lower upper swept =
      let same = kept_same collect (base n) (s.nodes n) (swept.todo n (omega arith)) in
      elim (Bool-cases (is_kept collect (base n))) [
        | inl k ↦
            rw (same ∙ k)
              (rw (bucket_eq n s lower upper swept k) (kept_step n lower upper s swept k))
        | inr k ↦ rw (same ∙ k) (rw (suc_add s.freenum) (freed_step n lower upper s swept _ k))
      ]

  pub rehash-Swept :
      (count : ℕ) (s : Kernel)
      → count + 2 ≤ size
      → Swept (count + 2) s
      → Swept 2 (rehash collect count s)
  unfolding rehash
  rehash-Swept zero s le swept = rw (zero_two) at swept
  rehash-Swept (suc count) s le swept =
      rehash-Swept count (rehash_node collect (count + 2) s) (omega arith) (
        rehash_node-Swept (count + 2) s (omega arith) (omega arith)
          (subst (λ k. Swept k s) (omega arith) swept))
