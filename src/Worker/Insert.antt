-- ===== src/Worker/Insert.antt =====
-- `insert_data`, when it is the update's turn: it ends, and keeps both sides of the book up to date.
use rsj.Prelude.{ℕ, ◌≡◌, ◌∙◌, true, false, write, write_self, write_ne, ◌≢◌}
use rsj.Prelude.Int.{eqb_ℤ}
use rsj.Structures.{RsjDataIn, RsjPair, LookupBid, LookupAsk}
use rsj.Helpers.{prev_index, prev_index_spec}
use rsj.OrderBook.{Book, set_level}
use rsj.OrderBook.Best.{IsBid, IsAsk}
use rsj.Table.{pair_of, bids_update, asks_update}
use rsj.Table.Bids.{TracksBids, bids_update-TracksBids}
use rsj.Table.Asks.{TracksAsks, asks_update-TracksAsks}
use rsj.Platform.{Platform}
use rsj.Context.{Context, done, ◌>>=◌}
use rsj.Worker.{side_buying, insert_data, copy_ask, copy_bid}

module _ (P : Platform) where
  open P.sync use {is_set, set, unset, Flag}

  -- The flags after a turn: the update's own is unset, and set when the turn is over.
  abbrev pub turned : (ℕ → Flag) → ℕ → ℕ → Flag
  turned flags index =
      let taken = write flags index (unset (flags index)) in write taken index (set (taken index))

  pub turned-is_set : (flags : ℕ → Flag) (index : ℕ) → is_set (turned flags index index) ≡ true
  turned-is_set flags index =
      rw (write_self (write flags index (unset (flags index))) index _) (P.sync.is_set-set _)

  pub turned-ne : (flags : ℕ → Flag) (index k : ℕ) → k ≢ index → turned flags index k ≡ flags k
  turned-ne flags index k ne =
      write_ne (write flags index (unset (flags index))) index k _ ne ∙ write_ne flags index k _ ne

  -- The state after an inserted bid, and after an inserted ask.
  unfoldable pub bought : RsjDataIn → Context P → Context P
  bought d c =
      let i = d.instrument in
      let s = d.specific_index in
      record c {
        order = turned c.order d.order_index;
        bids = write c.bids i (bids_update P.rb (c.bids i) s d.volume d.price);
        asks = write c.asks i (copy_ask P (c.asks i) s);
      }

  unfoldable pub sold : RsjDataIn → Context P → Context P
  sold d c =
      let i = d.instrument in
      let s = d.specific_index in
      record c {
        order = turned c.order d.order_index;
        asks = write c.asks i (asks_update P.rb (c.asks i) s d.volume d.price);
        bids = write c.bids i (copy_bid P (c.bids i) s);
      }

  module _ (d : RsjDataIn) (c : Context P)
      (turn : is_set (c.order (prev_index d.order_index)) ≡ true) where
    pub insert_data_buy : eqb_ℤ d.side side_buying ≡ true → insert_data P d c ≡ done tt (bought d c)
    unfolding insert_data bought
    insert_data_buy buy = rw buy (rw (turn, ◌>>=◌))

    pub insert_data_sell : eqb_ℤ d.side side_buying ≡ false → insert_data P d c ≡ done tt (sold d c)
    unfolding insert_data sold
    insert_data_sell sell = rw sell (rw (turn, ◌>>=◌))

  copy_ask-TracksAsks :
      (book : Book) (a : LookupAsk P.rb.Table) (s : ℕ)
      → TracksAsks P.rb book (prev_index_spec s) a
      → TracksAsks P.rb book s (copy_ask P a s)
  unfolding copy_ask
  copy_ask-TracksAsks book a s h = record {
    agrees = h.agrees;
    valid = h.valid;
    cached = h.cached;
    current = write_self a.history s _ ∙ h.current;
  }

  copy_bid-TracksBids :
      (book : Book) (b : LookupBid P.rb.Table) (s : ℕ)
      → TracksBids P.rb book (prev_index_spec s) b
      → TracksBids P.rb book s (copy_bid P b s)
  unfolding copy_bid
  copy_bid-TracksBids book b s h = record {
    agrees = h.agrees;
    valid = h.valid;
    cached = h.cached;
    current = write_self b.history s _ ∙ h.current;
  }

  -- Both sides of instrument `i` hold their books, and `last` is the place of its latest update.
  pub record TracksBooks (bids asks : ℕ → Book) (c : Context P) (i last : ℕ) : Type 0 where
    pub bid : TracksBids P.rb (bids i) last (c.bids i)
    pub ask : TracksAsks P.rb (asks i) last (c.asks i)

  module _ (bids asks : ℕ → Book) (d : RsjDataIn) (c : Context P) where
    abbrev i : ℕ
    i = d.instrument

    abbrev x : RsjPair
    x = pair_of d.volume d.price

    pub bought-TracksBooks :
        IsBid x
        → TracksBooks bids asks c i (prev_index_spec d.specific_index)
        → TracksBooks (write bids i (set_level (bids i) x)) asks (bought d c) i d.specific_index
    unfolding bought
    bought-TracksBooks v h = record {
      bid =
          rw (write_self bids i _, write_self c.bids i _)
            (bids_update-TracksBids P.rb (bids i) (c.bids i) _ d.volume d.price v h.bid);
      ask = rw (write_self c.asks i _) (copy_ask-TracksAsks (asks i) (c.asks i) _ h.ask);
    }

    pub sold-TracksBooks :
        IsAsk x
        → TracksBooks bids asks c i (prev_index_spec d.specific_index)
        → TracksBooks bids (write asks i (set_level (asks i) x)) (sold d c) i d.specific_index
    unfolding sold
    sold-TracksBooks v h = record {
      bid = rw (write_self c.bids i _) (copy_bid-TracksBids (bids i) (c.bids i) _ h.bid);
      ask =
          rw (write_self asks i _, write_self c.asks i _)
            (asks_update-TracksAsks P.rb (asks i) (c.asks i) _ d.volume d.price v h.ask);
    }
