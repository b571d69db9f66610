-- ===== src/Table/Asks.antt =====
-- The ask side of an instrument is the book of the levels that were set.
use rsj.Prelude.{ℕ, ◌≡◌, sym, ◌∙◌, ap, inl, inr, Bool-cases, Option-cases, write_self}
use rsj.Prelude.Int.{ℤ, pos, eqb_ℤ, ltb_ℤ}
use rsj.Structures.{RsjPair, LookupAsk}
use rsj.Helpers.{prev_index_spec, prev_index-eq}
use rsj.Comparison.{int_comparison}
use rsj.RbTable.{RbTable}
use rsj.RbTable.Agree.{Agrees, replace-Agrees, replace-delete-Agrees, first-Agrees}
use rsj.OrderBook.{Book, int_max, set_level, put_level, remove_level, best_ask}
use rsj.OrderBook.Best.{IsAsk, IsAskBook, set_level-remove, set_level-put}
use rsj.OrderBook.Best.Asks.{
  set_level-IsAskBook, best_ask-put_below, best_ask_of, best_ask-none, best_ask-put_above,
  best_ask-remove_other,
}
use rsj.Table.{pair_of, asks_update, new_best_ask, same_best_ask}

abbrev volume : RsjPair → ℤ
volume x = x.vol_bid

module _ (T : RbTable int_comparison) where
  open T use {Table, rb_replace, rb_delete, rb_t_first}

  -- `asks` holds `book`, its best level is cached, and `last` is the place in the history of the
  -- latest update.
  pub record TracksAsks (book : Book) (last : ℕ) (asks : LookupAsk Table) : Type 0 where
    pub agrees : Agrees T asks.tree book
    pub valid : IsAskBook book
    pub cached : pair_of asks.vol_ask asks.price_ask ≡ best_ask book
    pub current : asks.history last ≡ (best_ask book).vol_bid

  new_best_ask-TracksAsks :
      (book : Book) (asks : LookupAsk Table) (s : ℕ)
      → Agrees T asks.tree book
      → IsAskBook book
      → TracksAsks book s (new_best_ask T asks s)
  unfolding new_best_ask
  new_best_ask-TracksAsks book asks s h v = elim (Option-cases (rb_t_first asks.tree)) [
    | inl e ↦
        let best : best_ask book ≡ pair_of (pos 0) (pos int_max) =
          best_ask-none book (sym (first-Agrees T asks.tree book h) ∙ e) in
        rw (e, new_best_ask)
          (record {
            agrees = h;
            valid = v;
            cached = sym best;
            current = write_self asks.history s _ ∙ sym (ap volume best);
          })
    | inr (m, e) ↦
        let best : best_ask book ≡ m =
          best_ask_of book m (sym (first-Agrees T asks.tree book h) ∙ e) in
        rw (e, new_best_ask)
          (record {
            agrees = h;
            valid = v;
            cached = sym best;
            current = write_self asks.history s _ ∙ sym (ap volume best);
          })
  ]

  -- The previous entry of the history is copied while the best level stays what it was.
  same_best_ask-TracksAsks :
      (book old : Book) (asks : LookupAsk Table) (s prev : ℕ)
      → Agrees T asks.tree book
      → IsAskBook book
      → best_ask book ≡ best_ask old
      → pair_of asks.vol_ask asks.price_ask ≡ best_ask old
      → asks.history prev ≡ (best_ask old).vol_bid
      → TracksAsks book s (same_best_ask T asks s prev)
  unfolding same_best_ask
  same_best_ask-TracksAsks book old asks s prev h v e cached current = record {
    agrees = h;
    valid = v;
    cached = cached ∙ sym e;
    current = write_self asks.history s _ ∙ current ∙ sym (ap volume e);
  }

  -- For a price that is at most the greatest `int` and a volume from 0 to 2 ^ 30 - 1, `asks_insert` sets
  -- the level of the book (volume zero removes it), caches the best ask of the new book and records
  -- its volume in the history, if tree, cache and the history's last entry were those of the book
  -- before.
  pub asks_update-TracksAsks :
      (book : Book) (asks : LookupAsk Table) (s : ℕ) (vol price : ℤ)
      → IsAsk (pair_of vol price)
      → TracksAsks book (prev_index_spec s) asks
      → TracksAsks (set_level book (pair_of vol price)) s (asks_update T asks s vol price)
  unfolding asks_update
  asks_update-TracksAsks book asks s vol price n h = elim (Bool-cases (eqb_ℤ vol (pos 0))) [
    | inl gone ↦
        let agrees = replace-delete-Agrees T asks.tree book x h.agrees in
        let valid : IsAskBook (remove_level book x) =
          rw (set_level-remove book x gone) at (set_level-IsAskBook book x n h.valid) in
        rw (set_level-remove book x gone) (elim (Bool-cases (eqb_ℤ price asks.price_ask)) [
          | inl best ↦ rw (gone, best) (new_best_ask-TracksAsks _ (with_tree _) s agrees valid)
          | inr other ↦
              rw (gone, other)
                (same_best_ask-TracksAsks _ book (with_tree _) s _ agrees valid
                  (best_ask-remove_other book x (rw (← priced) other)) h.cached h.current)
        ])
    | inr set ↦
        let agrees = replace-Agrees T asks.tree book x h.agrees in
        let valid : IsAskBook (put_level book x) =
          rw (set_level-put book x set) at (set_level-IsAskBook book x n h.valid) in
        rw (set_level-put book x set) (elim (Bool-cases (ltb_ℤ asks.price_ask price)) [
          | inl worse ↦
              rw (set, worse)
                (same_best_ask-TracksAsks _ book (with_tree _) s _ agrees valid
                  (best_ask-put_above book x n.0 (rw (← priced) worse)) h.cached
                  (ap asks.history (prev_index-eq s) ∙ h.current))
          | inr better ↦
              let best = best_ask-put_below book x (rw (← priced) better) in
              rw (set, better)
                (record {
                  agrees = agrees;
                  valid = valid;
                  cached = sym best;
                  current = write_self asks.history s vol ∙ sym (ap volume best);
                })
        ])
  ]
    where
      x : RsjPair
      x = pair_of vol price

      with_tree : Table → LookupAsk Table
      with_tree t = record asks { tree = t }

      priced : asks.price_ask ≡ (best_ask book).price_bid
      priced = ap (λ (p : RsjPair). p.price_bid) h.cached
