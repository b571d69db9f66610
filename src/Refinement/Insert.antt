-- ===== src/Refinement/Insert.antt =====
-- The first half of a worker's pass, up to the inserted level.
use rsj.Prelude.{
  ℕ, ◌<◌, ◌≡◌, refl, ◌∙◌, ap, true, false, inl, inr, write, write_self, write_ne, ◌≢◌, sym,
  Bool-cases,
}
use rsj.Prelude.Int.{eqb_ℤ}
use rsj.Structures.{RsjDataIn, LookupBid, LookupAsk, history_size}
use rsj.Helpers.{prev_index, next_index, prev_index_spec, prev_index-ne-next, next_index-ne}
use rsj.OrderBook.{set_level}
use rsj.Table.{pair_of}
use rsj.Table.Places.{bids_update-history, asks_update-history}
use rsj.Platform.{Platform}
use rsj.Context.{Context, done}
use rsj.Worker.{side_buying, insert_data, copy_ask, copy_bid}
use rsj.Worker.Insert.{
  TracksBooks, bought, sold, turned-is_set, turned-ne, insert_data_buy, insert_data_sell,
  bought-TracksBooks, sold-TracksBooks,
}
use rsj.Producer.{Update, placed}
use rsj.Market.{Market, set_books}
use rsj.Refinement.{IsUpdate, Frame}

module _ (P : Platform) where
  open P.sync use {is_set, unset}

  set_books_buy :
      (u : Update) (m : Market P)
      → eqb_ℤ u.side side_buying ≡ true
      → set_books P u m ≡ record m {
        bids =
            write m.bids u.instrument (set_level (m.bids u.instrument) (pair_of u.volume u.price));
      }
  unfolding set_books
  set_books_buy u m h = rw h

  set_books_sell :
      (u : Update) (m : Market P)
      → eqb_ℤ u.side side_buying ≡ false
      → set_books P u m ≡ record m {
        asks =
            write m.asks u.instrument (set_level (m.asks u.instrument) (pair_of u.volume u.price));
      }
  unfolding set_books
  set_books_sell u m h = rw h

  -- The next place's flags are taken back before the update waits for its turn.
  unfoldable pub prepared : RsjDataIn → Context P → Context P
  prepared d c =
      let n = next_index d.order_index in
      record c {
        order = write c.order n (unset (c.order n));
        order_sum = write c.order_sum n (unset (c.order_sum n));
      }

  -- The state after the insertion: the books are the market's, the insertion's flag is set, and the
  -- sums and results are untouched.
  pub record Inserted (u : Update) (m : Market P) (d : RsjDataIn) (c c' : Context P) : Type 0 where
    pub ends : insert_data P d (prepared d c) ≡ done tt c'
    pub books : TracksBooks P m.bids m.asks c' u.instrument d.specific_index
    pub order_set : is_set (c'.order d.order_index) ≡ true
    pub order_sum : c'.order_sum ≡ (prepared d c).order_sum
    pub fp_i_history : c'.fp_i_history ≡ c.fp_i_history
    pub sum_history : c'.sum_history ≡ c.sum_history
    pub results : c'.results ≡ c.results
    pub frame : Frame P u.instrument d.order_index d.specific_index c c'

  module _ (u : Update) (m : Market P) (c : Context P) (oi s : ℕ) where
    abbrev d : RsjDataIn
    d = placed u oi s

    prepared_turn :
        oi < history_size
        → is_set (c.order (prev_index oi)) ≡ true
        → is_set ((prepared d c).order (prev_index oi)) ≡ true
    unfolding prepared
    prepared_turn h t =
        ap is_set (write_ne c.order (next_index oi) (prev_index oi) _ (prev_index-ne-next oi h)) ∙ t

    apart : oi < history_size → next_index oi ≢ oi
    apart h e = next_index-ne oi h (sym e)

    pub insert_data_tracks :
        IsUpdate u
        → oi < history_size
        → is_set (c.order (prev_index oi)) ≡ true
        → TracksBooks P m.bids m.asks c u.instrument (prev_index_spec s)
        → (c' : Context P) × Inserted u (set_books P u m) d c c'
    unfolding bought sold prepared copy_ask copy_bid
    insert_data_tracks v h t b = elim (Bool-cases (eqb_ℤ u.side side_buying)) [
      | inl buy ↦ (
        bought P d (prepared d c),
        rw (set_books_buy u m buy) (record {
          ends = insert_data_buy P d (prepared d c) (prepared_turn h t) buy;
          books =
              bought-TracksBooks P m.bids m.asks d (prepared d c) (v.bid buy)
                (record { bid = b.bid; ask = b.ask });
          order_set = turned-is_set P (prepared d c).order oi;
          order_sum = refl;
          fp_i_history = refl;
          sum_history = refl;
          results = refl;
          frame = record {
            running = refl;
            global_id = refl;
            order_index = refl;
            order_indices_bid = refl;
            buffer = refl;
            bids = λ j ne. write_ne c.bids u.instrument j _ ne;
            asks = λ j ne. write_ne c.asks u.instrument j _ ne;
            fp = λ j ne. refl;
            bid_entries = λ k ne.
                ap (λ (b : LookupBid P.rb.Table). b.history k) (write_self c.bids u.instrument _)
                ∙ bids_update-history P.rb (c.bids u.instrument) s u.volume u.price k ne;
            ask_entries = λ k ne.
                ap (λ (a : LookupAsk P.rb.Table). a.history k) (write_self c.asks u.instrument _)
                ∙ write_ne (c.asks u.instrument).history s k _ ne;
            fp_entries = λ k ne. refl;
            sums = λ k ne. refl;
            order = λ k own next.
                turned-ne P (prepared d c).order oi k own
                ∙ write_ne c.order (next_index oi) k _ next;
            order_sum = λ k own next. write_ne c.order_sum (next_index oi) k _ next;
            order_next =
                turned-ne P (prepared d c).order oi (next_index oi) (apart h)
                ∙ write_self c.order (next_index oi) _;
            order_sum_next = write_self c.order_sum (next_index oi) _;
          };
        }),
      )
      | inr sell ↦ (
        sold P d (prepared d c),
        rw (set_books_sell u m sell) (record {
          ends = insert_data_sell P d (prepared d c) (prepared_turn h t) sell;
          books =
              sold-TracksBooks P m.bids m.asks d (prepared d c) (v.ask sell)
                (record { bid = b.bid; ask = b.ask });
          order_set = turned-is_set P (prepared d c).order oi;
          order_sum = refl;
          fp_i_history = refl;
          sum_history = refl;
          results = refl;
          frame = record {
            running = refl;
            global_id = refl;
            order_index = refl;
            order_indices_bid = refl;
            buffer = refl;
            bids = λ j ne. write_ne c.bids u.instrument j _ ne;
            asks = λ j ne. write_ne c.asks u.instrument j _ ne;
            fp = λ j ne. refl;
            bid_entries = λ k ne.
                ap (λ (b : LookupBid P.rb.Table). b.history k) (write_self c.bids u.instrument _)
                ∙ write_ne (c.bids u.instrument).history s k _ ne;
            ask_entries = λ k ne.
                ap (λ (a : LookupAsk P.rb.Table). a.history k) (write_self c.asks u.instrument _)
                ∙ asks_update-history P.rb (c.asks u.instrument) s u.volume u.price k ne;
            fp_entries = λ k ne. refl;
            sums = λ k ne. refl;
            order = λ k own next.
                turned-ne P (prepared d c).order oi k own
                ∙ write_ne c.order (next_index oi) k _ next;
            order_sum = λ k own next. write_ne c.order_sum (next_index oi) k _ next;
            order_next =
                turned-ne P (prepared d c).order oi (next_index oi) (apart h)
                ∙ write_self c.order (next_index oi) _;
            order_sum_next = write_self c.order_sum (next_index oi) _;
          };
        }),
      )
    ]
