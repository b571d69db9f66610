-- ===== src/Memory/Levels.antt =====
-- table.h: the pairs in a tree against the levels of a book.
use rsj.Prelude.{◌≡◌, refl, true, false, Option, none, some, List, [], ◌∷◌, Bool-cases, inl, inr}
use rsj.Prelude.Int.{ℤ, pos, eqb_ℤ}
use rsj.Structures.{RsjPair}
use rsj.RbTable.{RbTable}
use rsj.OrderBook.{Book, same_price, level, set_level}
use rsj.OrderBook.Laws.{level-put, level-remove, level-nil}
use rsj.Table.{pair_of}
use rsj.Memory.{Block, block_comparison}
use rsj.Memory.Insert.{matches-same}

abbrev pub pair_at : Option Block → Option RsjPair
pair_at none = none
pair_at (some b) = some b.pair

-- The levels of a book after a sequence of updates of volumes and prices.
unfoldable pub set_levels : List (ℤ × ℤ) → Book → Book
set_levels [] book = book
set_levels ((vol, price) ∷ rest) book = set_levels rest (set_level book (pair_of vol price))

module _ (T : RbTable block_comparison) where
  open T use {Table, rb_create, rb_find, rb_replace, rb_delete}

  -- A search of the tree finds the pair that is the level of the book.
  abbrev pub Shows : Table → Book → Type 0
  Shows t book = (y : Block) → pair_at (rb_find t y) ≡ level book y.pair

  pub create-Shows : Shows rb_create []
  create-Shows y = rw (T.find-create y, level-nil y.pair) refl

  pub replace-Shows :
      (t : Table) (book : Book) (b : Block)
      → Shows t book
      → eqb_ℤ b.pair.vol_bid (pos 0) ≡ false
      → Shows (rb_replace t b).0 (set_level book b.pair)
  unfolding set_level
  replace-Shows t book b shows e y =
      rw (e, T.find-replace t b y, matches-same y b, level-put book b.pair y.pair)
        (elim (Bool-cases (same_price y.pair b.pair)) [
          | inl s ↦ rw s refl
          | inr n ↦ rw n (shows y)
        ])

  pub delete-Shows :
      (t : Table) (book : Book) (b : Block)
      → Shows t book
      → eqb_ℤ b.pair.vol_bid (pos 0) ≡ true
      → Shows (rb_delete (rb_replace t b).0 b).0 (set_level book b.pair)
  unfolding set_level
  delete-Shows t book b shows e y =
      rw
        (
          e,
          T.find-delete (rb_replace t b).0 b y,
          T.find-replace t b y,
          matches-same y b,
          level-remove book b.pair y.pair,
        )
        (elim (Bool-cases (same_price y.pair b.pair)) [
          | inl s ↦ rw s refl
          | inr n ↦ rw n (shows y)
        ])
