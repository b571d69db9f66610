-- ===== src/RbTable/Agree.antt =====
-- A tree that finds what a list of levels holds behaves as that list: what `rb_replace`,
-- `rb_delete`, `rb_t_first` and `rb_t_last` do is decided by what `rb_find` finds.
use rsj.Prelude.{◌≡◌, sym, ◌∙◌, ap, some, [], inl, inr, arith, Option-cases}
use rsj.Prelude.Int.{◌≤ℤ◌, eq_of_parts}
use rsj.Structures.{RsjPair}
use rsj.Comparison.{int_comparison, int_comparison_sign}
use rsj.RbTable.{RbTable}
use rsj.OrderBook.{Book, level, put_level, remove_level, highest, lowest}
use rsj.OrderBook.Laws.{
  matches-same_price, level-put, level-remove, highest-none, highest_found, highest_bound,
  lowest-none, lowest_found, lowest_bound,
}

module _ (T : RbTable int_comparison) where
  open T use {Table, rb_create, rb_find, rb_replace, rb_delete, rb_t_first, rb_t_last}

  abbrev pub Agrees : Table → Book → Type 0
  Agrees t book = (x : RsjPair) → rb_find t x ≡ level book x

  pub create-Agrees : Agrees rb_create []
  unfolding level
  create-Agrees x = T.find-create x

  pub replace-Agrees :
      (t : Table) (book : Book) (x : RsjPair)
      → Agrees t book
      → Agrees (rb_replace t x).0 (put_level book x)
  replace-Agrees t book x h y =
      rw (T.find-replace t x y, matches-same_price y x, level-put book x y, h y)

  pub delete-Agrees :
      (t : Table) (book : Book) (x : RsjPair)
      → Agrees t book
      → Agrees (rb_delete t x).0 (remove_level book x)
  delete-Agrees t book x h y =
      rw (T.find-delete t x y, matches-same_price y x, level-remove book x y, h y)

  -- Setting the level and then deleting it is removing it.
  pub replace-delete-Agrees :
      (t : Table) (book : Book) (x : RsjPair)
      → Agrees t book
      → Agrees (rb_delete (rb_replace t x).0 x).0 (remove_level book x)
  replace-delete-Agrees t book x h y =
      delete-Agrees _ _ x (replace-Agrees t book x h) y
      ∙ ground
          (arith, level-remove (put_level book x) x y, level-put book x y, level-remove book x y)

  find_of_price :
      (t : Table) (x y : RsjPair) → x.price_bid ≡ y.price_bid → rb_find t x ≡ rb_find t y
  find_of_price t x y e = T.find_congr t x y ((int_comparison_sign x y).0.1 e)

  last_eq :
      (t : Table) (book : Book) (x m : RsjPair)
      → Agrees t book
      → rb_t_last t ≡ some x
      → highest book ≡ some m
      → x ≡ m
  last_eq t book x m h e f =
      let x_found : rb_find t x ≡ some x = (T.last_some t x e).0 in
      let m_found : rb_find t m ≡ some m = h m ∙ highest_found book m f in
      let below : x.price_bid ≤ℤ m.price_bid = highest_bound book m x x f (sym (h x) ∙ x_found) in
      let above : m.price_bid ≤ℤ x.price_bid =
        (int_comparison_sign m x).1.0 ((T.last_some t x e).1 m m m_found) in
      cc (x_found, m_found, find_of_price t x m (eq_of_parts _ _ (omega arith)))

  first_eq :
      (t : Table) (book : Book) (x m : RsjPair)
      → Agrees t book
      → rb_t_first t ≡ some x
      → lowest book ≡ some m
      → x ≡ m
  first_eq t book x m h e f =
      let x_found : rb_find t x ≡ some x = (T.first_some t x e).0 in
      let m_found : rb_find t m ≡ some m = h m ∙ lowest_found book m f in
      let above : m.price_bid ≤ℤ x.price_bid = lowest_bound book m x x f (sym (h x) ∙ x_found) in
      let below : x.price_bid ≤ℤ m.price_bid =
        (int_comparison_sign x m).1.0 ((T.first_some t x e).1 m m m_found) in
      cc (x_found, m_found, find_of_price t x m (eq_of_parts _ _ (omega arith)))

  -- `rb_t_last` is the level of the highest price.
  pub last-Agrees : (t : Table) (book : Book) → Agrees t book → rb_t_last t ≡ highest book
  last-Agrees t book h = elim (Option-cases (rb_t_last t)) [
    | inl e ↦ elim (Option-cases (highest book)) [
      | inl f ↦ e ∙ sym f
      | inr (m, f) ↦ cc (h m, highest_found book m f, T.last_none t e m)
    ]
    | inr (x, e) ↦ elim (Option-cases (highest book)) [
      | inl f ↦ cc (h x, highest-none book f x, (T.last_some t x e).0)
      | inr (m, f) ↦ e ∙ ap some (last_eq t book x m h e f) ∙ sym f
    ]
  ]

  -- `rb_t_first` is the level of the lowest price.
  pub first-Agrees : (t : Table) (book : Book) → Agrees t book → rb_t_first t ≡ lowest book
  first-Agrees t book h = elim (Option-cases (rb_t_first t)) [
    | inl e ↦ elim (Option-cases (lowest book)) [
      | inl f ↦ e ∙ sym f
      | inr (m, f) ↦ cc (h m, lowest_found book m f, T.first_none t e m)
    ]
    | inr (x, e) ↦ elim (Option-cases (lowest book)) [
      | inl f ↦ cc (h x, lowest-none book f x, (T.first_some t x e).0)
      | inr (m, f) ↦ e ∙ ap some (first_eq t book x m h e f) ∙ sym f
    ]
  ]
