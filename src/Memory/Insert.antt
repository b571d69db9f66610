-- ===== src/Memory/Insert.antt =====
-- No pair is released twice, and none is lost.
use rsj.Prelude.{
  ℕ, ◌≡◌, refl, ◌∙◌, ap, Bool, true, false, none, some, ◌==◌, if◌then◌else◌, Bool-cases,
  Option-cases, inl, inr, arith,
}
use rsj.RbTable.{RbTable, matches}
use rsj.OrderBook.Laws.{matches-same_price}
use rsj.Memory.{Allocator, Block, block_comparison, release}
use rsj.Memory.Owned.{
  Owned, same, same_self, without, released, without-Owned, with_block-Owned, ext-Owned,
}

pub matches-same : (y x : Block) → matches block_comparison y x ≡ same y x
unfolding matches block_comparison
matches-same y x = matches-same_price y.pair x.pair

module _ (A : Allocator) (T : RbTable block_comparison) (others : ℕ → Bool) where
  open A use {Heap, live, malloc, free}
  open T use {Table, rb_create, rb_find, rb_replace, rb_delete}

  -- The pairs of the tree, and the other addresses in use.
  abbrev pub TreeOwned : Table → Heap → Type 0
  TreeOwned t h = Owned others (rb_find t) (live h)

  module _ (t : Table) (h : Heap) (o : TreeOwned t h) where
    pub release_block :
        (b : Block)
        → rb_find t b ≡ some b
        → (h' : Heap) × (release A T (some b) h ≡ some h') × TreeOwned (rb_delete t b).0 h'
    unfolding release
    release_block b e = (
      free h b.address,
      rw (o.held b b e).0 refl,
      ext-Owned (without-Owned others (rb_find t) (live h) o b b e)
          (λ y. rw (T.find-delete t b y, matches-same y b) refl) (A.live-free h b.address),
    )

    still_free : (a b : ℕ) → live h a ≡ false → (if a == b then false else live h a) ≡ false
    still_free a b e = ground arith

    used_still : (a : ℕ) → live h a ≡ true → live (malloc h).1 a ≡ true
    used_still a e = ground (arith, A.live-malloc h a)

    replaced_find :
        (b y : Block)
        → rb_find (rb_replace t b).0 y
          ≡ (if same y b then some b else if same y b then none else rb_find t y)
    replaced_find b y = elim (Bool-cases (same y b)) [
      | inl e ↦ rw (T.find-replace t b y, matches-same y b, e) refl
      | inr e ↦ rw (T.find-replace t b y, matches-same y b, e) refl
    ]

    replaced_live :
        (c a : ℕ)
        → live h c ≡ true
        → live (free (malloc h).1 c) a
          ≡ (if a == (malloc h).0 then true else if a == c then false else live h a)
    replaced_live c a e =
        ground (arith, A.live-free (malloc h).1 c a, A.live-malloc h a, A.malloc_fresh h, e)

    pub replace_block :
        (b : Block)
        → b.address ≡ (malloc h).0
        → (h' : Heap) × (release A T (rb_replace t b).1 (malloc h).1 ≡ some h')
          × TreeOwned (rb_replace t b).0 h'
    unfolding release
    replace_block b e =
        let fresh : live h b.address ≡ false = ap (live h) e ∙ A.malloc_fresh h in
        elim (Option-cases (rb_find t b)) [
          | inl n ↦ (
            (malloc h).1,
            rw (T.replaced t b, n) refl,
            ext-Owned (with_block-Owned others (rb_find t) (live h) o b n fresh)
                (λ y. rw (T.find-replace t b y, matches-same y b) refl)
                (λ a. rw e (A.live-malloc h a)),
          )
          | inr (c, f) ↦
              let used = (o.held b c f).0 in
              let o1 = without-Owned others (rb_find t) (live h) o b c f in
              let o2 =
                with_block-Owned others (without others (rb_find t) (live h) o b)
                  (released others (rb_find t) (live h) o c.address) o1 b (rw (same_self b) refl)
                  (still_free b.address c.address fresh) in
              (
                free (malloc h).1 c.address,
                rw (T.replaced t b, f) (rw (used_still c.address used) refl),
                ext-Owned o2 (λ y. replaced_find b y) (λ a. rw e (replaced_live c.address a used)),
              )
        ]
