-- ===== src/Table/Bids.antt =====
-- The bid side of an instrument is the book of the levels that were set.
use rsj.Prelude.{ℕ, ◌≡◌, sym, ◌∙◌, ap, inl, inr, Bool-cases, Option-cases, write_self}
use rsj.Prelude.Int.{ℤ, pos, eqb_ℤ, ltb_ℤ}
use rsj.Structures.{RsjPair, LookupBid}
use rsj.Helpers.{prev_index_spec}
use rsj.Comparison.{int_comparison}
use rsj.RbTable.{RbTable}
use rsj.RbTable.Agree.{Agrees, replace-Agrees, replace-delete-Agrees, last-Agrees}
use rsj.OrderBook.{Book, set_level, put_level, remove_level, best_bid}
use rsj.OrderBook.Best.{IsBid, IsBidBook, set_level-remove, set_level-put}
use rsj.OrderBook.Best.Bids.{
  set_level-IsBidBook, best_bid-put_above, best_bid_of, best_bid-none, best_bid-put_below,
  best_bid-remove_other,
}
use rsj.Table.{pair_of, bids_update, new_best_bid, same_best_bid}

module _ (T : RbTable int_comparison) where
  open T use {Table, rb_replace, rb_delete, rb_t_last}

  -- `bids` holds `book`, its best level is cached, and `last` is the place in the history of the
  -- latest update.
  pub record TracksBids (book : Book) (last : ℕ) (bids : LookupBid Table) : Type 0 where
    pub agrees : Agrees T bids.tree book
    pub valid : IsBidBook book
    pub cached : pair_of bids.vol_bid bids.price_bid ≡ best_bid book
    pub current : bids.history last ≡ best_bid book

  new_best_bid-TracksBids :
      (book : Book) (bids : LookupBid Table) (s : ℕ)
      → Agrees T bids.tree book
      → IsBidBook book
      → TracksBids book s (new_best_bid T bids s)
  unfolding new_best_bid
  new_best_bid-TracksBids book bids s h v = elim (Option-cases (rb_t_last bids.tree)) [
    | inl e ↦
        let best : best_bid book ≡ pair_of (pos 0) (pos 0) =
          best_bid-none book (sym (last-Agrees T bids.tree book h) ∙ e) in
        rw (e, new_best_bid)
          (record {
            agrees = h;
            valid = v;
            cached = sym best;
            current = write_self bids.history s _ ∙ sym best;
          })
    | inr (m, e) ↦
        let best : best_bid book ≡ m =
          best_bid_of book m (sym (last-Agrees T bids.tree book h) ∙ e) in
        rw (e, new_best_bid)
          (record {
            agrees = h;
            valid = v;
            cached = sym best;
            current = write_self bids.history s _ ∙ sym best;
          })
  ]

  -- The previous entry of the history is copied while the best level stays what it was.
  same_best_bid-TracksBids :
      (book old : Book) (bids : LookupBid Table) (s : ℕ)
      → Agrees T bids.tree book
      → IsBidBook book
      → best_bid book ≡ best_bid old
      → pair_of bids.vol_bid bids.price_bid ≡ best_bid old
      → bids.history (prev_index_spec s) ≡ best_bid old
      → TracksBids book s (same_best_bid T bids s)
  unfolding same_best_bid
  same_best_bid-TracksBids book old bids s h v e cached current = record {
    agrees = h;
    valid = v;
    cached = cached ∙ sym e;
    current = write_self bids.history s _ ∙ current ∙ sym e;
  }

  -- For a price that is not negative and a volume from 0 to 2 ^ 30 - 1, `bids_insert` sets the level of
  -- the book (volume zero removes it), caches the best bid of the new book and records it in the
  -- history, if tree, cache and the history's last entry were those of the book before.
  pub bids_update-TracksBids :
      (book : Book) (bids : LookupBid Table) (s : ℕ) (vol price : ℤ)
      → IsBid (pair_of vol price)
      → TracksBids book (prev_index_spec s) bids
      → TracksBids (set_level book (pair_of vol price)) s (bids_update T bids s vol price)
  unfolding bids_update
  bids_update-TracksBids book bids s vol price n h = elim (Bool-cases (eqb_ℤ vol (pos 0))) [
    | inl gone ↦
        let agrees = replace-delete-Agrees T bids.tree book x h.agrees in
        let valid : IsBidBook (remove_level book x) =
          rw (set_level-remove book x gone) at (set_level-IsBidBook book x n h.valid) in
        rw (set_level-remove book x gone) (elim (Bool-cases (eqb_ℤ price bids.price_bid)) [
          | inl best ↦ rw (gone, best) (new_best_bid-TracksBids _ (with_tree _) s agrees valid)
          | inr other ↦
              rw (gone, other)
                (same_best_bid-TracksBids _ book (with_tree _) s agrees valid
                  (best_bid-remove_other book x (rw (← priced) other)) h.cached h.current)
        ])
    | inr set ↦
        let agrees = replace-Agrees T bids.tree book x h.agrees in
        let valid : IsBidBook (put_level book x) =
          rw (set_level-put book x set) at (set_level-IsBidBook book x n h.valid) in
        rw (set_level-put book x set) (elim (Bool-cases (ltb_ℤ price bids.price_bid)) [
          | inl worse ↦
              rw (set, worse)
                (same_best_bid-TracksBids _ book (with_tree _) s agrees valid
                  (best_bid-put_below book x n.0 (rw (← priced) worse)) h.cached h.current)
          | inr better ↦
              let best = best_bid-put_above book x (rw (← priced) better) in
              rw (set, better)
                (record {
                  agrees = agrees;
                  valid = valid;
                  cached = sym best;
                  current = write_self bids.history s x ∙ sym best;
                })
        ])
  ]
    where
      x : RsjPair
      x = pair_of vol price

      with_tree : Table → LookupBid Table
      with_tree t = record bids { tree = t }

      priced : bids.price_bid ≡ (best_bid book).price_bid
      priced = ap (λ (p : RsjPair). p.price_bid) h.cached
