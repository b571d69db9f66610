-- ===== src/Tests/Memory.antt =====
-- The pairs of a tree (table.h) with an allocator that never gives out an address twice.
use rsj.Prelude.{
  ℕ, ◌+◌, ◌≤◌, ◌≡◌, refl, ap, Bool, true, false, Option, none, some, List, [], ◌∷◌, ◌==◌,
  if◌then◌else◌, arith, inl, inr, Option-cases, Bool-cases, map, ◌∙◌, sym,
}
use rsj.Prelude.Int.{ℤ, pos, eqb_ℤ}
use rsj.Structures.{RsjPair}
use rsj.RbTable.{RbTable}
use rsj.OrderBook.{Book, same_price, level, put_level, remove_level, highest, lowest}
use rsj.OrderBook.Laws.{book_table, level-nil, level-put, level-remove, level_match}
use rsj.Comparison.{int_comparison}
use rsj.Memory.{Allocator, Block, block_comparison, release, insert_pair, insert_pairs}
use rsj.Memory.Owned.{Owned, none-some, some_eq}
use rsj.Memory.Insert.{matches-same}
use rsj.Memory.Levels.{Shows, set_levels}
use rsj.Memory.Pairs.{insert_pairs-Owned}

-- The addresses from `next` on are not in use.
record Counter : Type 0 where
  next : ℕ
  used : ℕ → Bool
  unused : (a : ℕ) → next ≤ a → used a ≡ false

abbrev take_next : Counter → Counter
take_next h = record {
  next = 1 + h.next;
  used = λ a. if a == h.next then true else h.used a;
  unused = λ a le. ground (arith, h.unused a);
}

abbrev give_back : Counter → ℕ → Counter
give_back h b = record {
  next = h.next;
  used = λ a. if a == b then false else h.used a;
  unused = λ a le. ground (arith, h.unused a);
}

abbrev counting : Allocator
counting = record {
  Heap = Counter;
  live = λ h. h.used;
  malloc = λ h. (h.next, take_next h);
  free = give_back;
  malloc_fresh = λ h. h.unused h.next (omega arith);
  live-malloc = λ h a. refl;
  live-free = λ h b a. refl;
}

abbrev no_pairs : Counter
no_pairs = record { next = 0; used = λ a. false; unused = λ a le. refl }

-- The levels of a book, with the address of the pair of each price.
record Blocks : Type 0 where
  book : Book
  where_is : ℤ → ℕ

abbrev block_of : Blocks → Option RsjPair → Option Block
block_of t none = none
block_of t (some p) = some (record { address = t.where_is p.price_bid; pair = p })

abbrev found : Blocks → Block → Option Block
found t x = block_of t (level t.book x.pair)

abbrev put_block : Blocks → Block → Blocks
put_block t x = record {
  book = put_level t.book x.pair;
  where_is = λ p. if eqb_ℤ p x.pair.price_bid then x.address else t.where_is p;
}

abbrev remove_block : Blocks → Block → Blocks
remove_block t x = record { book = remove_level t.book x.pair; where_is = t.where_is }

block_of-some :
    (t : Blocks) (p : Option RsjPair) (y : Block) → block_of t p ≡ some y → p ≡ some y.pair
block_of-some t none y e = absurd (none-some e)
block_of-some t (some p) y e = ap (λ (b : Block). some b.pair) (some_eq e)

block_of-none : (t : Blocks) (p : Option RsjPair) → block_of t p ≡ none → p ≡ none
block_of-none t none e = refl
block_of-none t (some p) e = absurd (none-some (sym e))

where_put :
    (p y x : ℤ) (a : ℕ) (f : ℤ → ℕ)
    → eqb_ℤ y p ≡ true
    → eqb_ℤ y x ≡ false
    → (if eqb_ℤ p x then a else f p) ≡ f p
where_put p y x a f e n = ground arith

where_self : (x : ℤ) (a b : ℕ) → (if eqb_ℤ x x then a else b) ≡ a
where_self x a b = ground arith

found-put :
    (t : Blocks) (x y : Block)
    → found (put_block t x) y ≡ (if same_price y.pair x.pair then some x else found t y)
found-put t x y = elim (Bool-cases (same_price y.pair x.pair)) [
  | inl e ↦
      rw
        (
          level-put t.book x.pair y.pair,
          e,
          where_self x.pair.price_bid x.address (t.where_is x.pair.price_bid),
        )
        refl
  | inr n ↦
      rw (level-put t.book x.pair y.pair, n)
        (elim (Option-cases (level t.book y.pair)) [
          | inl e ↦ rw e refl
          | inr (p, e) ↦
              rw
                (
                  e,
                  where_put p.price_bid y.pair.price_bid x.pair.price_bid x.address t.where_is
                      (level_match t.book y.pair p e) n,
                )
                refl
        ])
]

found-remove :
    (t : Blocks) (x y : Block)
    → found (remove_block t x) y ≡ (if same_price y.pair x.pair then none else found t y)
found-remove t x y = elim (Bool-cases (same_price y.pair x.pair)) [
  | inl e ↦ rw (level-remove t.book x.pair y.pair, e) refl
  | inr n ↦ rw (level-remove t.book x.pair y.pair, n) refl
]

-- The block of a level that is found by its own price.
found_self :
    (t : Blocks) (p : Option RsjPair) (x : Block)
    → block_of t p ≡ some x
    → level t.book x.pair ≡ some x.pair
    → found t x ≡ some x
found_self t p x e f = ap (block_of t) (f ∙ sym (block_of-some t p x e)) ∙ e

comparison_of_pairs : (x y : Block) → block_comparison x y ≡ int_comparison x.pair y.pair
unfolding block_comparison
comparison_of_pairs x y = refl

abbrev blocks_table : RbTable block_comparison
blocks_table = record {
  Table = Blocks;
  rb_create = record { book = []; where_is = λ p. 0 };
  rb_find = found;
  rb_replace = λ t x. (put_block t x, found t x);
  rb_delete = λ t x. (remove_block t x, found t x);
  rb_t_first = λ t. block_of t (lowest t.book);
  rb_t_last = λ t. block_of t (highest t.book);
  find_match = λ t x y e.
      comparison_of_pairs x y
      ∙ book_table.find_match t.book x.pair y.pair (block_of-some t (level t.book x.pair) y e);
  find_congr = λ t x y e.
      ap (block_of t)
        (book_table.find_congr t.book x.pair y.pair (sym (comparison_of_pairs x y) ∙ e));
  find-create = λ x. rw (level-nil x.pair) refl;
  find-replace = λ t x y. rw (matches-same y x) (found-put t x y);
  replaced = λ t x. refl;
  find-delete = λ t x y. rw (matches-same y x) (found-remove t x y);
  deleted = λ t x. refl;
  first_none = λ t e x.
      ap (block_of t) (book_table.first_none t.book (block_of-none t (lowest t.book) e) x.pair);
  first_some = λ t x e.
      let (at, bound) = book_table.first_some t.book x.pair (block_of-some t (lowest t.book) x e) in
      (
        found_self t (lowest t.book) x e at,
        λ y z q.
            rw (comparison_of_pairs x z)
              (bound y.pair z.pair (block_of-some t (level t.book y.pair) z q)),
      );
  last_none = λ t e x.
      ap (block_of t) (book_table.last_none t.book (block_of-none t (highest t.book) e) x.pair);
  last_some = λ t x e.
      let (at, bound) = book_table.last_some t.book x.pair (block_of-some t (highest t.book) x e) in
      (
        found_self t (highest t.book) x e at,
        λ y z q.
            rw (comparison_of_pairs z x)
              (bound y.pair z.pair (block_of-some t (level t.book y.pair) z q)),
      );
}

-- Volume 10 and then volume 20 at 100, volume 5 at 90, and nothing at 100 any more.
abbrev updates : List (ℤ × ℤ)
updates = (pos 10, pos 100) ∷ (pos 20, pos 100) ∷ (pos 5, pos 90) ∷ (pos 0, pos 100) ∷ []

-- Four pairs were allocated; the third is in use.
pairs_in_use : Option (Blocks × Counter) → List Bool
pairs_in_use none = []
pairs_in_use (some (t, h)) = map h.used (0 ∷ 1 ∷ 2 ∷ 3 ∷ 4 ∷ [])

run_updates :
    pairs_in_use (insert_pairs counting blocks_table updates blocks_table.rb_create no_pairs)
    ≡ false ∷ false ∷ true ∷ false ∷ false ∷ []
unfolding pairs_in_use insert_pairs insert_pair release level put_level remove_level
run_updates = refl

insert_pairs-Owned_example :
    (t' : Blocks) × (h' : Counter) × (insert_pairs counting blocks_table updates
        blocks_table.rb_create no_pairs
      ≡ some (t', h'))
    × Owned no_pairs.used (found t') h'.used
    × Shows blocks_table t' (set_levels updates [])
insert_pairs-Owned_example = insert_pairs-Owned counting blocks_table no_pairs updates
