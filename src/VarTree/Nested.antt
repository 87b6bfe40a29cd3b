-- ===== src/VarTree/Nested.antt =====
-- Adding a block to the tree of src/tree.c.
use mo_to_buddy.Prelude.{
  ℕ, suc, ◌+◌, ◌≤◌, ◌<◌, ◌≡◌, refl, ◌∙◌, ◌⊎◌, ◌↔◌, inl, inr, Bool, true, false, ◌&&◌, ◌||◌, some,
  ltb, leb, ◌==◌, arith, Bool-cases,
}
use mathlib.Core.Logic.{⊎_elim}
use mo_to_buddy.Kernel.Settings.{nat}
use mo_to_buddy.VarTree.{
  BddTree, null, block, new_block, covered, addrange_rec, Blocks, added, attached,
  block_is_adjacent, bdd_intaddvarblock,
}

-- The blocks stand in order between two bounds, and so do those nested in each.
abbrev pub IsNested : ℕ → ℕ → BddTree → Type 0
IsNested lo hi null = Unit
IsNested lo hi (block f l x i q sub next) =
    (lo ≤ f) × (f ≤ l) × (l < hi) × IsNested f (suc l) sub × IsNested (suc l) hi next

-- A range overlaps no block partially.
abbrev pub Compatible : ℕ → ℕ → BddTree → Type 0
Compatible a b null = Unit
Compatible a b (block f l x i q sub next) =
    ((b < f) ⊎ ((l < a) ⊎ (((f ≤ a) × (b ≤ l)) ⊎ ((a ≤ f) × (l ≤ b)))))
    × Compatible a b sub
    × Compatible a b next

-- The ranges of the blocks.
abbrev pub HasBlock : ℕ → ℕ → BddTree → Type 0
HasBlock c d null = ⊥
HasBlock c d (block f l x i q sub next) =
    ((c ≡ f) × (d ≡ l)) ⊎ (HasBlock c d sub ⊎ HasBlock c d next)

-- Blocks that a range covers, and those behind them.
record Splits (lo hi b : ℕ) (t inner rest : BddTree) : Type 0 where
  inner_nested : IsNested lo (suc b) inner
  rest_nested : IsNested (suc b) hi rest
  same : (c d : ℕ) → HasBlock c d t ↔ (HasBlock c d inner ⊎ HasBlock c d rest)

covered-Splits :
    (a b lo hi f l : ℕ) (x : Bool) (i : ℕ) (q : ℕ → ℕ) (sub next : BddTree)
    → l ≤ b
    → a ≤ f
    → IsNested lo hi (block f l x i q sub next)
    → Compatible a b (block f l x i q sub next)
    → (inner : BddTree) × (rest : BddTree) × (covered b (block f l x i q sub next)
        ≡ some (inner, rest))
      × Splits lo hi b (block f l x i q sub next) inner rest
unfolding covered
covered-Splits a b lo hi f l x i q sub null le start (p, p', p'', ns, nn) (cx, cs, cn) =
    let whole : (leb f b && ltb b l) ≡ false = ground arith in
    (
      block f l x i q sub null,
      null,
      rw (covered, whole) refl,
      record {
        inner_nested = (p, p', omega arith, ns, tt);
        rest_nested = tt;
        same = λ c d. (λ h. inl h, λ h. ⊎_elim (λ k. k) (λ k. absurd k) h);
      },
    )
covered-Splits a b lo hi f l x i q sub (block f' l' x' i' q' sub' next') le start
      (p, p', p'', ns, nn) (cx, cs, cn) =
    let whole : (leb f b && ltb b l) ≡ false = ground arith in
    elim (Bool-cases (ltb b f')) [
      | inl behind ↦
          let beyond : b < f' = ground arith in
          (
            block f l x i q sub null,
            block f' l' x' i' q' sub' next',
            rw (covered, whole, behind) refl,
            record {
              inner_nested = (p, p', omega arith, ns, tt);
              rest_nested = (omega arith, nn.1, nn.2, nn.3, nn.4);
              same = λ c d. (λ h. ground arith, λ h. ground arith);
            },
          )
      | inr more ↦
          let reached : f' ≤ b = ground arith in
          let inside : l' ≤ b = omega (arith, cn.0, nn) in
          let (inner, rest, e, s) =
            covered-Splits a b (suc l) hi f' l' x' i' q' sub' next' inside (omega arith) nn cn in
          (
            block f l x i q sub inner,
            rest,
            rw (covered, whole, more, e) refl,
            record {
              inner_nested = (p, p', omega arith, ns, s.inner_nested);
              rest_nested = s.rest_nested;
              same = λ c d. let (to, from) = s.same c d in (λ h. ground arith, λ h. ground arith);
            },
          )
    ]

-- The tree after a range was added.
pub record Inserted (lo hi a b : ℕ) (t t' : BddTree) : Type 0 where
  pub nested : IsNested lo hi t'
  pub blocks : (c d : ℕ) → HasBlock c d t' ↔ (((c ≡ a) × (d ≡ b)) ⊎ HasBlock c d t)

module _ (var2level : ℕ → ℕ) (a b : ℕ) (fixed : Bool) (id : ℕ) where
  -- The range of the block is that of one in the tree.
  same-Inserted :
      {lo hi f l : ℕ} {x : Bool} {i : ℕ} {q : ℕ → ℕ} {sub next : BddTree}
      → a ≡ f
      → b ≡ l
      → IsNested lo hi (block f l x i q sub next)
      → Inserted lo hi a b (block f l x i q sub next) (block f l x i q sub next)
  same-Inserted ea eb n = record {
    nested = n;
    blocks = λ c d. (inr, λ h. ⊎_elim (λ (p, q). inl (p ∙ ea, q ∙ eb)) (λ k. k) h);
  }

  before-Inserted :
      {lo hi : ℕ} {t : BddTree}
      → lo ≤ a
      → a ≤ b
      → b < hi
      → IsNested (suc b) hi t
      → Inserted lo hi a b t (new_block var2level a b fixed id null t)
  before-Inserted la ab bh n = record {
    nested = (la, ab, bh, tt, n);
    blocks = λ c d. (λ h. ground arith, λ h. ground arith);
  }

  above-Inserted :
      {lo hi : ℕ} {t inner rest : BddTree}
      → lo ≤ a
      → a ≤ b
      → b < hi
      → Splits a hi b t inner rest
      → Inserted lo hi a b t (new_block var2level a b fixed id inner rest)
  above-Inserted la ab bh s = record {
    nested = (la, ab, bh, s.inner_nested, s.rest_nested);
    blocks = λ c d. let (to, from) = s.same c d in (λ h. ground arith, λ h. ground arith);
  }

  behind-Inserted :
      {lo hi f l : ℕ} {x : Bool} {i : ℕ} {q : ℕ → ℕ} {sub next next' : BddTree}
      → IsNested lo hi (block f l x i q sub next)
      → Inserted (suc l) hi a b next next'
      → Inserted lo hi a b (block f l x i q sub next) (block f l x i q sub next')
  behind-Inserted (p, p', p'', ns, nn) s = record {
    nested = (p, p', p'', ns, s.nested);
    blocks = λ c d. let (to, from) = s.blocks c d in (λ h. ground arith, λ h. ground arith);
  }

  inside-Inserted :
      {lo hi f l : ℕ} {x : Bool} {i : ℕ} {q : ℕ → ℕ} {sub sub' next : BddTree}
      → IsNested lo hi (block f l x i q sub next)
      → Inserted f (suc l) a b sub sub'
      → Inserted lo hi a b (block f l x i q sub next) (block f l x i q sub' next)
  inside-Inserted (p, p', p'', ns, nn) s = record {
    nested = (p, p', p'', s.nested, nn);
    blocks = λ c d. let (to, from) = s.blocks c d in (λ h. ground arith, λ h. ground arith);
  }

  addrange_rec-Inserted :
      (lo hi : ℕ) (t : BddTree)
      → lo ≤ a
      → a ≤ b
      → b < hi
      → IsNested lo hi t
      → Compatible a b t
      → Inserted lo hi a b t (addrange_rec var2level a b fixed id t)
  unfolding addrange_rec
  addrange_rec-Inserted lo hi null la ab bh n k =
      let order : ltb b a ≡ false = ground arith in
      rw (addrange_rec, order) (before-Inserted la ab bh tt)
  addrange_rec-Inserted lo hi (block f l x i q sub next) la ab bh n k =
      let t = block f l x i q sub next in
      let order : ltb b a ≡ false = ground arith in
      elim (Bool-cases ((a == f) && (b == l))) [
        | inl e1 ↦
            let ea : a ≡ f = ground arith in
            let eb : b ≡ l = ground arith in rw (addrange_rec, order, e1) (same-Inserted ea eb n)
        | inr e1 ↦ elim (Bool-cases (ltb b f)) [
          | inl e2 ↦
              rw (addrange_rec, order, e1, e2)
                (before-Inserted la ab bh (ground arith, n.1, n.2, n.3, n.4))
          | inr e2 ↦ elim (Bool-cases (ltb l a)) [
            | inl e3 ↦
                rw (addrange_rec, order, e1, e2, e3)
                  (behind-Inserted n
                    (addrange_rec-Inserted (suc l) hi next (ground arith) ab bh n.4 k.2))
            | inr e3 ↦ elim (Bool-cases (leb f a && leb b l)) [
              | inl e4 ↦
                  rw (addrange_rec, order, e1, e2, e3, e4)
                    (inside-Inserted n (
                      addrange_rec-Inserted f (suc l) sub (ground arith) ab (ground arith) n.3 k.1))
              | inr e4 ↦
                  let fit = k.0 in
                  let e5 : leb a f ≡ true = ground arith in
                  let le : l ≤ b = ground arith in
                  let start : a ≤ f = ground arith in
                  let (inner, rest, e, s) =
                    covered-Splits a b a hi f l x i q sub next le start (start, n.1, n.2, n.3, n.4)
                      k in
                  rw (addrange_rec, order, e1, e2, e3, e4, e5, e)
                    (above-Inserted {inner = inner} {rest = rest} la ab bh s)
            ]
          ]
        ]
      ]

-- A tree with a block is attached under the next number.
attach-added :
    (varnum a b : ℕ) (t' : BddTree) (s : Blocks)
    → Inserted 0 varnum a b s.vartree t'
    → attached t' s ≡ (added s.blockid, record { vartree = t'; blockid = s.blockid + 1 })
attach-added varnum a b null s r = absurd ((r.blocks a b).1 (inl (refl, refl)))
attach-added varnum a b (block f l x i q sub next) s r = refl

-- In a tree of nested blocks of declared variables, let a range of declared variables on adjacent
-- levels overlap no block partially. Then `bdd_intaddvarblock` returns the next number, the blocks are
-- nested again, and they are those of before and the new one.
pub bdd_intaddvarblock-Inserted :
    (var2level : ℕ → ℕ) (varnum a b : ℕ) (fixed : Bool) (s : Blocks)
    → a ≤ b
    → b < varnum
    → block_is_adjacent var2level a b ≡ true
    → IsNested 0 varnum s.vartree
    → Compatible a b s.vartree
    → (t' : BddTree) × (bdd_intaddvarblock var2level varnum (nat a) (nat b) fixed s
        ≡ (added s.blockid, record { vartree = t'; blockid = s.blockid + 1 }))
      × Inserted 0 varnum a b s.vartree t'
unfolding bdd_intaddvarblock
bdd_intaddvarblock-Inserted var2level varnum a b fixed s ab bv adjacent n k =
    let r =
      addrange_rec-Inserted var2level a b fixed s.blockid 0 varnum s.vartree (omega arith) ab bv n
        k in
    let known : (leb varnum a || leb varnum b) ≡ false = ground arith in
    (
      addrange_rec var2level a b fixed s.blockid s.vartree,
      rw (known, adjacent) (attach-added varnum a b _ s r),
      r,
    )
