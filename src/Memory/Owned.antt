-- ===== src/Memory/Owned.antt =====
-- Which addresses in use belong to a tree: the search function of the tree against the addresses.
use rsj.Prelude.{
  ℕ, ◌≡◌, ◌≢◌, refl, sym, fun_ext, ◌∙◌, ap, Bool, true, false, Option, none, some, ◌==◌,
  if◌then◌else◌, Bool-cases, inl, inr, ◌⊎◌, arith,
}
use native.Mathlib.Decide.{ℕ_discrete}
use rsj.OrderBook.{same_price}
use rsj.Memory.{Block}

abbrev pub same : Block → Block → Bool
same y x = same_price y.pair x.pair

-- The blocks that `find` finds are in use, at different addresses, and none is among the `others`; every
-- other address in use is among the `others`, which are in use.
pub record Owned (others : ℕ → Bool) (find : Block → Option Block) (live : ℕ → Bool) : Type 0 where
  pub matching : (y b : Block) → find y ≡ some b → same y b ≡ true
  pub congruent : (y z : Block) → same y z ≡ true → find y ≡ find z
  pub held : (y b : Block) → find y ≡ some b → (live b.address ≡ true) × (others b.address ≡ false)
  pub apart : (y z b c : Block) → find y ≡ some b → find z ≡ some c → b.address ≡ c.address → b ≡ c
  pub kept : (a : ℕ) → others a ≡ true → live a ≡ true
  pub owner :
      (a : ℕ) → live a ≡ true → others a ≡ false → (b : Block) × (find b ≡ some b) × (b.address ≡ a)

same_congr : (x y z : Block) → same x y ≡ true → same x z ≡ same y z
same_congr x y z e = ground arith

pub none-some : {b : Block} → none ≡ some b → ⊥
none-some e = cc

pub some_eq : {b c : Block} → some b ≡ some c → b ≡ c
some_eq e = cc

same_via : (y x b : Block) → same y b ≡ true → same x b ≡ true → same y x ≡ true
same_via y x b e f = ground arith

pub clash : {b : Bool} → b ≡ true → b ≡ false → ⊥
clash e f = cc

pub same_self : (x : Block) → same x x ≡ true
same_self x = ground arith

-- The same search function and the same addresses, point by point.
pub ext-Owned :
    {others : ℕ → Bool} {find found : Block → Option Block} {live used : ℕ → Bool}
    → Owned others find live
    → ((y : Block) → found y ≡ find y)
    → ((a : ℕ) → used a ≡ live a)
    → Owned others found used
ext-Owned o f l = rw (fun_ext f, fun_ext l) o

module _ (others : ℕ → Bool) (find : Block → Option Block) (live : ℕ → Bool)
    (o : Owned others find live) where
  -- The block that is found for `x` is released.
  abbrev pub without : Block → Block → Option Block
  without x y = if same y x then none else find y

  abbrev pub released : ℕ → ℕ → Bool
  released b a = if a == b then false else live a

  without-some : (x y c : Block) → without x y ≡ some c → (same y x ≡ false) × (find y ≡ some c)
  without-some x y c f = elim (Bool-cases (same y x)) [
    | inl t ↦ absurd (none-some (rw t at f))
    | inr n ↦ (n, rw n at f)
  ]

  released_live : (b a : ℕ) → a ≢ b → live a ≡ true → released b a ≡ true
  released_live b a ne l = ground arith

  live_released : (b a : ℕ) → released b a ≡ true → (a ≢ b) × (live a ≡ true)
  live_released b a l = ground arith

  -- What is found for blocks of other prices is not the released block.
  other_address :
      (x y b c : Block)
      → find x ≡ some b
      → find y ≡ some c
      → same y x ≡ false
      → c.address ≢ b.address
  other_address x y b c e g n q =
      let found = o.apart y x c b g e q in
      let at_b : same y b ≡ true = rw found at (o.matching y c g) in
      clash (same_via y x b at_b (o.matching x b e)) n

  pub without-Owned :
      (x b : Block) → find x ≡ some b → Owned others (without x) (released b.address)
  without-Owned x b e = record {
    matching = λ y c f. o.matching y c (without-some x y c f).1;
    congruent = λ y z s. rw (same_congr y z x s, o.congruent y z s) refl;
    held = λ y c f.
        let (n, g) = without-some x y c f in
        let (l, k) = o.held y c g in
        (released_live b.address c.address (other_address x y b c e g n) l, k);
    apart = λ y z c d f g s. o.apart y z c d (without-some x y c f).1 (without-some x z d g).1 s;
    kept = λ a k.
        released_live b.address a (λ q. clash k (ap others q ∙ (o.held x b e).1)) (o.kept a k);
    owner = λ a l k.
        let (ne, l') = live_released b.address a l in
        let (c, g, q) = o.owner a l' k in
        elim (Bool-cases (same c x)) [
          | inl t ↦
              absurd (
                ne
                  (sym q ∙ ap (λ (d : Block). d.address) (some_eq (sym g ∙ o.congruent c x t ∙ e))))
          | inr n ↦ (c, rw n g, q)
        ];
  }

  -- A fresh block is added where none was found.
  abbrev pub with_block : Block → Block → Option Block
  with_block x y = if same y x then some x else find y

  abbrev pub allocated : ℕ → ℕ → Bool
  allocated b a = if a == b then true else live a

  with_block-some :
      (x y c : Block) → with_block x y ≡ some c → ((same y x ≡ true) × (x ≡ c)) ⊎ (find y ≡ some c)
  with_block-some x y c f = elim (Bool-cases (same y x)) [
    | inl t ↦ inl (t, some_eq (rw t at f))
    | inr n ↦ inr (rw n at f)
  ]

  live_allocated : (b a : ℕ) → live a ≡ true → allocated b a ≡ true
  live_allocated b a l = ground arith

  allocated_self : (a : ℕ) → allocated a a ≡ true
  allocated_self a = ground arith

  live_of_allocated : (b a : ℕ) → a ≢ b → allocated b a ≡ true → live a ≡ true
  live_of_allocated b a ne l = ground arith

  not_other : (a : ℕ) → live a ≡ false → others a ≡ false
  not_other a fresh = elim (Bool-cases (others a)) [
    | inl k ↦ absurd (clash (o.kept a k) fresh)
    | inr k ↦ k
  ]

  pub with_block-Owned :
      (x : Block)
      → find x ≡ none
      → live x.address ≡ false
      → Owned others (with_block x) (allocated x.address)
  with_block-Owned x e fresh = record {
    matching = λ y c f. elim (with_block-some x y c f) [
      | inl (t, q) ↦ rw (← q) t
      | inr g ↦ o.matching y c g
    ];
    congruent = λ y z s. rw (same_congr y z x s, o.congruent y z s) refl;
    held = λ y c f. elim (with_block-some x y c f) [
      | inl (t, q) ↦ rw (← q) (allocated_self x.address, not_other x.address fresh)
      | inr g ↦ let (l, k) = o.held y c g in (live_allocated x.address c.address l, k)
    ];
    apart = λ y z c d f g s. elim (with_block-some x y c f) [
      | inl (t, q) ↦ elim (with_block-some x z d g) [
        | inl (u, r) ↦ sym q ∙ r
        | inr h ↦ absurd (
            clash (o.held z d h).0
              (ap live (sym s ∙ sym (ap (λ (k : Block). k.address) q)) ∙ fresh))
      ]
      | inr h ↦ elim (with_block-some x z d g) [
        | inl (u, r) ↦
            absurd
              (clash (o.held y c h).0 (ap live (s ∙ sym (ap (λ (k : Block). k.address) r)) ∙ fresh))
        | inr k ↦ o.apart y z c d h k s
      ]
    ];
    kept = λ a k. live_allocated x.address a (o.kept a k);
    owner = λ a l k. elim (ℕ_discrete a x.address) [
      | yes q ↦ (x, rw (same_self x) refl, sym q)
      | no ne ↦
          let (c, g, q) = o.owner a (live_of_allocated x.address a ne l) k in
          elim (Bool-cases (same c x)) [
            | inl t ↦ absurd (none-some (sym e ∙ sym (o.congruent c x t) ∙ g))
            | inr n ↦ (c, rw n g, q)
          ]
    ];
  }
