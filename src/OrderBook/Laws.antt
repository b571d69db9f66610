-- ===== src/OrderBook/Laws.antt =====
-- The laws of a tree of pairs hold of the list of levels, which is an instance of the interface.
use rsj.Prelude.{◌≡◌, refl, true, none, some, [], ◌∷◌, inl, inr, arith, Option-cases, if◌then◌else◌}
use rsj.Prelude.Int.{pos, ◌≤ℤ◌}
use rsj.Structures.{RsjPair}
use rsj.Comparison.{int_comparison, int_comparison_sign}
use rsj.RbTable.{RbTable, matches}
use rsj.OrderBook.{Book, same_price, level, remove_level, put_level, highest, lowest}

pub matches-same_price : (x y : RsjPair) → matches int_comparison x y ≡ same_price x y
unfolding int_comparison matches
matches-same_price x y = ground arith

pub level_match : (t : Book) (x y : RsjPair) → level t x ≡ some y → same_price x y ≡ true
unfolding level
level_match [] x y h = absurd (ground arith)
level_match (z ∷ zs) x y h = ground (arith, level_match zs x y)

pub level_congr : (t : Book) (x y : RsjPair) → x.price_bid ≡ y.price_bid → level t x ≡ level t y
unfolding level
level_congr [] x y h = refl
level_congr (z ∷ zs) x y h = ground (arith, level_congr zs x y)

pub level-nil : (x : RsjPair) → level [] x ≡ none
unfolding level
level-nil x = refl

pub level-remove :
    (t : Book) (x y : RsjPair)
    → level (remove_level t x) y ≡ (if same_price y x then none else level t y)
unfolding level remove_level
level-remove [] x y = ground arith
level-remove (z ∷ zs) x y = ground (arith, level-remove zs x y)

pub level-put :
    (t : Book) (x y : RsjPair)
    → level (put_level t x) y ≡ (if same_price y x then some x else level t y)
unfolding level put_level
level-put t x y = ground (arith, level-remove t x y)

pub highest-none : (t : Book) → highest t ≡ none → (x : RsjPair) → level t x ≡ none
unfolding highest level
highest-none [] h x = refl
highest-none (y ∷ ys) h x = absurd (ground arith)

pub highest_found : (t : Book) (x : RsjPair) → highest t ≡ some x → level t x ≡ some x
unfolding highest level
highest_found [] x h = absurd (ground arith)
highest_found (w ∷ ws) x h = elim (Option-cases (highest ws)) [
  | inl e ↦ ground (arith, e)
  | inr (m, e) ↦ ground (arith, e, highest_found ws m e)
]

pub highest_bound :
    (t : Book) (x y z : RsjPair)
    → highest t ≡ some x
    → level t y ≡ some z
    → z.price_bid ≤ℤ x.price_bid
unfolding highest level
highest_bound [] x y z h q = absurd (ground arith)
highest_bound (w ∷ ws) x y z h q = elim (Option-cases (highest ws)) [
  | inl e ↦ ground (arith, highest-none ws e y)
  | inr (m, e) ↦ ground (arith, highest_bound ws m y z e)
]

pub lowest-none : (t : Book) → lowest t ≡ none → (x : RsjPair) → level t x ≡ none
unfolding lowest level
lowest-none [] h x = refl
lowest-none (y ∷ ys) h x = absurd (ground arith)

pub lowest_found : (t : Book) (x : RsjPair) → lowest t ≡ some x → level t x ≡ some x
unfolding lowest level
lowest_found [] x h = absurd (ground arith)
lowest_found (w ∷ ws) x h = elim (Option-cases (lowest ws)) [
  | inl e ↦ ground (arith, e)
  | inr (m, e) ↦ ground (arith, e, lowest_found ws m e)
]

pub lowest_bound :
    (t : Book) (x y z : RsjPair)
    → lowest t ≡ some x
    → level t y ≡ some z
    → x.price_bid ≤ℤ z.price_bid
unfolding lowest level
lowest_bound [] x y z h q = absurd (ground arith)
lowest_bound (w ∷ ws) x y z h q = elim (Option-cases (lowest ws)) [
  | inl e ↦ ground (arith, lowest-none ws e y)
  | inr (m, e) ↦ ground (arith, lowest_bound ws m y z e)
]

pub compare_of_same_price : (x y : RsjPair) → same_price x y ≡ true → int_comparison x y ≡ pos 0
compare_of_same_price x y h = (int_comparison_sign x y).0.1 (ground arith)

-- The list of levels as a tree.
abbrev pub book_table : RbTable int_comparison
book_table = record {
  Table = Book;
  rb_create = [];
  rb_find = level;
  rb_replace = λ t x. (put_level t x, level t x);
  rb_delete = λ t x. (remove_level t x, level t x);
  rb_t_first = lowest;
  rb_t_last = highest;
  find_match = λ t x y h. compare_of_same_price x y (level_match t x y h);
  find_congr = λ t x y h. level_congr t x y ((int_comparison_sign x y).0.0 h);
  find-create = level-nil;
  find-replace = λ t x y. rw (matches-same_price y x) (level-put t x y);
  replaced = λ t x. refl;
  find-delete = λ t x y. rw (matches-same_price y x) (level-remove t x y);
  deleted = λ t x. refl;
  first_none = lowest-none;
  first_some = λ t x h.
      (lowest_found t x h, λ y z q. (int_comparison_sign x z).1.1 (lowest_bound t x y z h q));
  last_none = highest-none;
  last_some = λ t x h.
      (highest_found t x h, λ y z q. (int_comparison_sign z x).1.1 (highest_bound t x y z h q));
}
