-- ===== src/Memory/Pairs.antt =====
-- table.h: sequences of insertions into a tree, with the pairs they allocate and release.
use rsj.Prelude.{ℕ, ◌≡◌, refl, sym, ◌∙◌, Bool, some, List, [], ◌∷◌, Bool-cases, inl, inr}
use rsj.Prelude.Int.{ℤ, pos, eqb_ℤ}
use rsj.RbTable.{RbTable}
use rsj.Table.{pair_of}
use rsj.Memory.{Allocator, Block, block_comparison, insert_pair, insert_pairs}
use rsj.Memory.Owned.{Owned, same_self, clash}
use rsj.OrderBook.{Book, set_level}
use rsj.Memory.Levels.{Shows, set_levels, create-Shows, replace-Shows, delete-Shows}
use rsj.Memory.Insert.{TreeOwned, matches-same, release_block, replace_block}

module _ (A : Allocator) (T : RbTable block_comparison) (others : ℕ → Bool) where
  open A use {Heap, live, malloc, free}
  open T use {Table, rb_create, rb_find, rb_replace, rb_delete}

  insert_pair-TreeOwned :
      (t : Table) (h : Heap) (book : Book) (vol price : ℤ)
      → TreeOwned A T others t h
      → Shows T t book
      → (t' : Table) × (h' : Heap) × (insert_pair A T t h vol price ≡ some (t', h'))
        × TreeOwned A T others t' h'
        × Shows T t' (set_level book (pair_of vol price))
  unfolding insert_pair
  insert_pair-TreeOwned t h book vol price o shows =
      let b : Block = record { address = (malloc h).0; pair = pair_of vol price } in
      let (h1, e, o1) = replace_block A T others t h o b refl in
      let t1 = (rb_replace t b).0 in
      elim (Bool-cases (eqb_ℤ vol (pos 0))) [
        | inl z ↦
            let found : rb_find t1 b ≡ some b =
              T.find-replace t b b ∙ rw (matches-same b b, same_self b) refl in
            let (h2, f, o2) = release_block A T others t1 h1 o1 b found in
            (
              (rb_delete t1 b).0,
              h2,
              rw (insert_pair, e, z) (rw (T.deleted t1 b, found, f) refl),
              o2,
              delete-Shows T t book b shows z,
            )
        | inr n ↦ (t1, h1, rw (insert_pair, e, n) refl, o1, replace-Shows T t book b shows n)
      ]

  insert_pairs-TreeOwned :
      (updates : List (ℤ × ℤ)) (t : Table) (h : Heap) (book : Book)
      → TreeOwned A T others t h
      → Shows T t book
      → (t' : Table) × (h' : Heap) × (insert_pairs A T updates t h ≡ some (t', h'))
        × TreeOwned A T others t' h'
        × Shows T t' (set_levels updates book)
  unfolding insert_pairs set_levels
  insert_pairs-TreeOwned [] t h book o shows = (t, h, refl, o, shows)
  insert_pairs-TreeOwned ((vol, price) ∷ rest) t h book o shows =
      let (t1, h1, e, o1, shows1) = insert_pair-TreeOwned t h book vol price o shows in
      let (t2, h2, f, o2, shows2) =
        insert_pairs-TreeOwned rest t1 h1 (set_level book (pair_of vol price)) o1 shows1 in
      (t2, h2, rw (insert_pairs, e) f, o2, shows2)

create-TreeOwned :
    (A : Allocator) (T : RbTable block_comparison) (h : A.Heap)
    → TreeOwned A T (A.live h) T.rb_create h
create-TreeOwned A T h = record {
  matching = λ y b f. absurd (nothing y b f);
  congruent = λ y z s. T.find-create y ∙ sym (T.find-create z);
  held = λ y b f. absurd (nothing y b f);
  apart = λ y z b c f g s. absurd (nothing y b f);
  kept = λ a k. k;
  owner = λ a l k. absurd (clash l k);
}
  where
    nothing : (y b : Block) → T.rb_find T.rb_create y ≡ some b → ⊥
    nothing y b f = let e = T.find-create y in cc

-- Any sequence of insertions into a new tree comes to an end without a release of what is not in
-- use. Then the tree holds the levels of the book of these updates; its pairs are in use, at different
-- addresses, and the other addresses in use are those that were in use before.
pub insert_pairs-Owned :
    (A : Allocator) (T : RbTable block_comparison) (h : A.Heap) (updates : List (ℤ × ℤ))
    → (t' : T.Table) × (h' : A.Heap) × (insert_pairs A T updates T.rb_create h ≡ some (t', h'))
      × Owned (A.live h) (T.rb_find t') (A.live h')
      × Shows T t' (set_levels updates [])
insert_pairs-Owned A T h updates =
    insert_pairs-TreeOwned A T (A.live h) updates T.rb_create h [] (create-TreeOwned A T h)
      (create-Shows T)
