-- ===== src/Kernel/Partition.antt =====
-- How the node table of src/kernel.c splits into the buckets of the unique table and the free list,
-- and what linking, releasing and taking a node do to the two.
use mo_to_buddy.Prelude.{
  ℕ, suc, ◌-◌, ◌<◌, ◌≡◌, ◌≢◌, refl, sym, ◌∙◌, ap, subst, ◌⊎◌, inl, inr, List, [], ◌∷◌, ◌==◌,
  if◌then◌else◌, length, Among, arith, Bool-cases, ==_iff, ℕ_discrete,
}
use mathlib.Core.Logic.{⊎_elim}
use mo_to_buddy.Hash.{hash_node, hash_range}
use mo_to_buddy.Kernel.{Node, Nodes, update}
use mo_to_buddy.Kernel.Chain.{Chain, Chain-frame}

-- The bucket in which a node belongs.
abbrev pub home : ℕ → Nodes → ℕ → ℕ
home size nodes n = hash_range (hash_node (nodes n).level (nodes n).low (nodes n).high) size

-- Bucket `b` holds exactly the nodes of `L` that belong there.
pub record Bucket (size : ℕ) (nodes : Nodes) (L : ℕ → Type 0) (b : ℕ) : Type 0 where
  pub items : List ℕ
  pub chain : Chain nodes (nodes b).hash items
  pub sound : (n : ℕ) → Among n items → L n × (home size nodes n ≡ b)
  pub full : (n : ℕ) → L n → home size nodes n ≡ b → Among n items

-- The free list holds exactly the nodes of `F`.
pub record FreeList (nodes : Nodes) (F : ℕ → Type 0) (pos num : ℕ) : Type 0 where
  pub items : List ℕ
  pub chain : Chain nodes pos items
  pub sound : (n : ℕ) → Among n items → F n
  pub full : (n : ℕ) → F n → Among n items
  pub count : num ≡ length items

pub record Partition (size : ℕ) (nodes : Nodes) (L F : ℕ → Type 0) (pos num : ℕ) : Type 0 where
  pub buckets : (b : ℕ) → b < size → Bucket size nodes L b
  pub free : FreeList nodes F pos num

-- The links and heads of `nodes'` are those of `nodes`, and the nodes of `L` belong where they did.
abbrev SameLinks : ℕ → Nodes → Nodes → (ℕ → Type 0) → Type 0
SameLinks size nodes nodes' L =
    (n : ℕ)
    → ((nodes' n).next ≡ (nodes n).next)
      × ((nodes' n).hash ≡ (nodes n).hash)
      × (L n → home size nodes' n ≡ home size nodes n)

pub Partition-frame :
    (size : ℕ) (nodes nodes' : Nodes) (L F L' F' : ℕ → Type 0) {pos num : ℕ}
    → SameLinks size nodes nodes' L
    → ((n : ℕ) → L n → L' n)
    → ((n : ℕ) → L' n → L n)
    → ((n : ℕ) → F n → F' n)
    → ((n : ℕ) → F' n → F n)
    → Partition size nodes L F pos num
    → Partition size nodes' L' F' pos num
Partition-frame size nodes nodes' L F L' F' same l l' f f' p = record {
  buckets = λ b h.
      let q = p.buckets b h in
      record {
        items = q.items;
        chain =
            Chain-frame nodes nodes' q.items (nodes' b).hash (rw ((same b).1) q.chain)
              (λ n m. (same n).0);
        sound = λ n m. let (i, e) = q.sound n m in (l n i, (same n).2 i ∙ e);
        full = λ n i e. q.full n (l' n i) (sym ((same n).2 (l' n i)) ∙ e);
      };
  free =
      let q = p.free in
      record {
        items = q.items;
        chain = Chain-frame nodes nodes' q.items _ q.chain (λ n m. (same n).0);
        sound = λ n m. f n (q.sound n m);
        full = λ n i. q.full n (f' n i);
        count = q.count;
      };
}

-- `node->next = bddnodes[hash].hash; bddnodes[hash].hash = n;`
unfoldable pub link : Nodes → ℕ → ℕ → Nodes
link nodes b n =
    let nodes' = update nodes n (record (nodes n) { next = (nodes b).hash }) in
    update nodes' b (record (nodes' b) { hash = n })

pub record SameFields (m m' : Node) : Type 0 where
  pub high : m'.high ≡ m.high
  pub low : m'.low ≡ m.low
  pub refcou : m'.refcou ≡ m.refcou
  pub level : m'.level ≡ m.level
  pub mark : m'.mark ≡ m.mark

pub link-fields : (nodes : Nodes) (b n m : ℕ) → SameFields (nodes m) (link nodes b n m)
unfolding link
link-fields nodes b n m = ground arith

pub link-next :
    (nodes : Nodes) (b n m : ℕ)
    → (link nodes b n m).next ≡ (if m == n then (nodes b).hash else (nodes m).next)
unfolding link
link-next nodes b n m = ground arith

pub link-hash :
    (nodes : Nodes) (b n m : ℕ) → (link nodes b n m).hash ≡ (if m == b then n else (nodes m).hash)
unfolding link
link-hash nodes b n m = ground arith

pub link-hash_self : (nodes : Nodes) (b n : ℕ) → (link nodes b n b).hash ≡ n
link-hash_self nodes b n = ground (arith, link-hash nodes b n b)

pub link-hash_ne : (nodes : Nodes) (b n m : ℕ) → m ≢ b → (link nodes b n m).hash ≡ (nodes m).hash
link-hash_ne nodes b n m ne = ground (arith, link-hash nodes b n m)

link-next_self : (nodes : Nodes) (b n : ℕ) → (link nodes b n n).next ≡ (nodes b).hash
link-next_self nodes b n = ground (arith, link-next nodes b n n)

home-link :
    (size : ℕ) (nodes : Nodes) (b n m : ℕ) → home size (link nodes b n) m ≡ home size nodes m
home-link size nodes b n m = let f = link-fields nodes b n m in rw (f.level, f.low, f.high) refl

-- A chain that avoids `n` survives the linking of `n`.
Chain-link :
    (nodes : Nodes) (b n : ℕ) (xs : List ℕ) (p : ℕ)
    → ¬ Among n xs
    → Chain nodes p xs
    → Chain (link nodes b n) p xs
Chain-link nodes b n xs p out c = Chain-frame nodes (link nodes b n) xs p c λ m i.
    elim (Bool-cases (m == n)) [
      | inl e ↦ absurd (out (subst (λ a. Among a xs) ((==_iff m n).0 e) i))
      | inr ne ↦ rw (link-next nodes b n m, ne) refl
    ]

module _ (size : ℕ) (nodes : Nodes) {L F L' : ℕ → Type 0} {pos num : ℕ} (n : ℕ) (ne_zero : n ≢ 0)
    (not_live : ¬ L n) (not_free : ¬ F n) (into : (m : ℕ) → L' m → (m ≡ n) ⊎ L m)
    (keep : (m : ℕ) → L m → L' m) (new : L' n) (part : Partition size nodes L F pos num) where
  link_here :
      home size nodes n < size
      → Bucket size (link nodes (home size nodes n) n) L' (home size nodes n)
  link_here h =
      let b = home size nodes n in
      let q = part.buckets b h in
      let out : ¬ Among n q.items = λ m. not_live ((q.sound n m).0) in
      record {
        items = n ∷ q.items;
        chain = (
          link-hash_self nodes b n,
          ne_zero,
          out,
          Chain-link nodes b n q.items _ out (rw (link-next_self nodes b n) q.chain),
        );
        sound = λ m i. elim i [
          | inl e ↦ rw e (new, home-link size nodes b n n)
          | inr i' ↦ (keep m ((q.sound m i').0), home-link size nodes b n m ∙ (q.sound m i').1)
        ];
        full = λ m l e. elim (into m l) [
          | inl same ↦ inl same
          | inr l' ↦ inr (q.full m l' (sym (home-link size nodes b n m) ∙ e))
        ];
      }

  link_there :
      (c : ℕ)
      → c < size
      → c ≢ home size nodes n
      → Bucket size (link nodes (home size nodes n) n) L' c
  link_there c h ne =
      let b = home size nodes n in
      let q = part.buckets c h in
      let out : ¬ Among n q.items = λ m. not_live ((q.sound n m).0) in
      record {
        items = q.items;
        chain = rw (link-hash_ne nodes b n c ne) (Chain-link nodes b n q.items _ out q.chain);
        sound = λ m i. (keep m ((q.sound m i).0), home-link size nodes b n m ∙ (q.sound m i).1);
        full = λ m l e. elim (into m l) [
          | inl same ↦
              absurd (ne (sym e ∙ home-link size nodes b n m ∙ ap (λ a. home size nodes a) same))
          | inr l' ↦ q.full m l' (sym (home-link size nodes b n m) ∙ e)
        ];
      }

  -- A node that is neither live nor free becomes live when it is linked into its bucket.
  pub link-Partition :
      home size nodes n < size → Partition size (link nodes (home size nodes n) n) L' F pos num
  link-Partition h = record {
    buckets = λ c lt. elim (ℕ_discrete c (home size nodes n)) [
      | yes e ↦ subst (Bucket size (link nodes (home size nodes n) n) L') (sym e) (link_here h)
      | no ne ↦ link_there c lt ne
    ];
    free =
        let q = part.free in
        record {
          items = q.items;
          chain =
              Chain-link nodes (home size nodes n) n q.items pos (λ m. not_free (q.sound n m))
                q.chain;
          sound = q.sound;
          full = q.full;
          count = q.count;
        };
  }

-- `node->next = bddfreepos; bddfreepos = n; bddfreenum++;`, the node's other fields given anew.
abbrev pub release : Nodes → ℕ → Node → ℕ → Nodes
release nodes n node pos = update nodes n (record node { next = pos })

module _ (size : ℕ) (nodes : Nodes) {L F F' : ℕ → Type 0} {pos num : ℕ} (n : ℕ) (node : Node)
    (ne_zero : n ≢ 0) (not_live : ¬ L n) (not_free : ¬ F n) (head : node.hash ≡ (nodes n).hash)
    (into : (m : ℕ) → F' m → (m ≡ n) ⊎ F m) (keep : (m : ℕ) → F m → F' m) (new : F' n)
    (part : Partition size nodes L F pos num) where
  Chain-release :
      (xs : List ℕ) (p : ℕ)
      → ¬ Among n xs
      → Chain nodes p xs
      → Chain (release nodes n node pos) p xs
  Chain-release xs p out c = Chain-frame nodes (release nodes n node pos) xs p c λ m i.
      elim (Bool-cases (m == n)) [
        | inl e ↦ absurd (out (subst (λ a. Among a xs) ((==_iff m n).0 e) i))
        | inr ne ↦ rw ne refl
      ]

  same_home : (m : ℕ) → L m → home size (release nodes n node pos) m ≡ home size nodes m
  same_home m l = elim (Bool-cases (m == n)) [
    | inl e ↦ absurd (not_live (subst L ((==_iff m n).0 e) l))
    | inr ne ↦ rw ne refl
  ]

  same_head : (m : ℕ) → (release nodes n node pos m).hash ≡ (nodes m).hash
  same_head m = ground (arith, head)

  next_self : (release nodes n node pos n).next ≡ pos
  next_self = ground arith

  -- A node that is neither live nor free becomes the first of the free list.
  pub release-Partition : Partition size (release nodes n node pos) L F' n (suc num)
  release-Partition = record {
    buckets = λ b h.
        let q = part.buckets b h in
        record {
          items = q.items;
          chain =
              rw (same_head b) (Chain-release q.items _ (λ m. not_live ((q.sound n m).0)) q.chain);
          sound = λ m i. let (l, e) = q.sound m i in (l, same_home m l ∙ e);
          full = λ m l e. q.full m l (sym (same_home m l) ∙ e);
        };
    free =
        let q = part.free in
        let out : ¬ Among n q.items = λ m. not_free (q.sound n m) in
        let next_chain =
          subst (λ a. Chain (release nodes n node pos) a q.items) (sym next_self)
            (Chain-release q.items pos out q.chain) in
        record {
          items = n ∷ q.items;
          chain = (refl, ne_zero, out, next_chain);
          sound = λ m i. elim i [ inl e ↦ rw e new | inr i' ↦ keep m (q.sound m i') ];
          full = λ m f. elim (into m f) [ inl e ↦ inl e | inr f' ↦ inr (q.full m f') ];
          count = omega (arith, q.count);
        };
  }

-- Taking the first free node leaves it neither live nor free.
pub take-Partition :
    (size : ℕ) (nodes : Nodes) (L F : ℕ → Type 0) {pos num : ℕ}
    → pos ≢ 0
    → Partition size nodes L F pos num
    → F pos × Partition size nodes L (λ n. F n × (n ≢ pos)) (nodes pos).next (num - 1)
take-Partition size nodes L F {pos} {num} ne part = go part.free.items refl
  where
    q : FreeList nodes F pos num
    q = part.free

    go :
        (xs : List ℕ)
        → q.items ≡ xs
        → F pos × Partition size nodes L (λ n. F n × (n ≢ pos)) (nodes pos).next (num - 1)
    go [] e = absurd (ne (subst (Chain nodes pos) e q.chain))
    go (x ∷ xs) e =
        let (at, nz, out, rest) = subst (Chain nodes pos) e q.chain in
        (
          q.sound pos (rw e (inl at)),
          record {
            buckets = part.buckets;
            free = record {
              items = xs;
              chain = rw at rest;
              sound = λ n m. (
                q.sound n (rw e (inr m)),
                λ (b : n ≡ pos). out (subst (λ a. Among a xs) (b ∙ at) m),
              );
              full = λ n (f, other).
                  ⊎_elim (λ (b : n ≡ x). absurd (other (b ∙ sym at))) (λ m. m)
                    (subst (Among n) e (q.full n f));
              count = omega (arith, q.count, ap length e);
            };
          },
        )
