-- ===== src/Table.antt =====
-- table.h: `bids_insert` and `asks_insert` between the wait for their turn and its release: the tree
-- of price levels, the cached best level and the history of best levels. What they allocate and
-- release is in Memory.
pub mod Bids
pub mod Asks
pub mod Holds
pub mod Volumes
pub mod Places
use rsj.Prelude.{ℕ, none, some, ltb, not, write, if◌then◌else◌}
use rsj.Prelude.Int.{ℤ, pos, eqb_ℤ, ltb_ℤ}
use rsj.Structures.{RsjPair, LookupBid, LookupAsk}
use rsj.Helpers.{prev_index, prev_index_spec}
use rsj.Comparison.{int_comparison}
use rsj.RbTable.{RbTable}
use rsj.OrderBook.{int_max}

abbrev pub pair_of : ℤ → ℤ → RsjPair
pair_of vol price = record { vol_bid = vol; price_bid = price }

module _ (T : RbTable int_comparison) where
  open T use {Table, rb_create, rb_replace, rb_delete, rb_t_first, rb_t_last}

  -- The best price was removed: the last item of the tree is the new one.
  unfoldable pub new_best_bid : LookupBid Table → ℕ → LookupBid Table
  new_best_bid bids specific_index = elim (rb_t_last bids.tree) [
    | none ↦ record bids {
      price_bid = pos 0;
      vol_bid = pos 0;
      history = write bids.history specific_index (pair_of (pos 0) (pos 0));
    }
    | some new_max ↦ record bids {
      price_bid = new_max.price_bid;
      vol_bid = new_max.vol_bid;
      history = write bids.history specific_index (pair_of new_max.vol_bid new_max.price_bid);
    }
  ]

  -- Nothing changed: the last value of the history once more.
  unfoldable pub same_best_bid : LookupBid Table → ℕ → LookupBid Table
  same_best_bid bids specific_index = record bids {
    history = write bids.history specific_index (bids.history (prev_index_spec specific_index));
  }

  unfoldable pub bids_update : LookupBid Table → ℕ → ℤ → ℤ → LookupBid Table
  unfolding new_best_bid same_best_bid
  bids_update bids specific_index vol_bid price_bid =
      let pair = pair_of vol_bid price_bid in
      let tree = (rb_replace bids.tree pair).0 in
      if eqb_ℤ vol_bid (pos 0)
      then (let removed = record bids { tree = (rb_delete tree pair).0 } in
          if eqb_ℤ price_bid bids.price_bid
          then new_best_bid removed specific_index
          else same_best_bid removed specific_index)
      else if not (ltb_ℤ price_bid bids.price_bid)
      then record bids {
        tree = tree;
        price_bid = price_bid;
        vol_bid = vol_bid;
        history = write bids.history specific_index pair;
      }
      else same_best_bid (record bids { tree = tree }) specific_index

  unfoldable pub new_best_ask : LookupAsk Table → ℕ → LookupAsk Table
  new_best_ask asks specific_index = elim (rb_t_first asks.tree) [
    | none ↦ record asks {
      price_ask = pos int_max;
      vol_ask = pos 0;
      history = write asks.history specific_index (pos 0);
    }
    | some new_min ↦ record asks {
      price_ask = new_min.price_bid;
      vol_ask = new_min.vol_bid;
      history = write asks.history specific_index new_min.vol_bid;
    }
  ]

  -- `prev` is the entry before: `asks_insert` finds it by `prev_index_spec` after a removal, and by
  -- `prev_index` where nothing was removed.
  unfoldable pub same_best_ask : LookupAsk Table → ℕ → ℕ → LookupAsk Table
  same_best_ask asks specific_index prev = record asks {
    history = write asks.history specific_index (asks.history prev);
  }

  unfoldable pub asks_update : LookupAsk Table → ℕ → ℤ → ℤ → LookupAsk Table
  unfolding new_best_ask same_best_ask
  asks_update asks specific_index vol_ask price_ask =
      let pair = pair_of vol_ask price_ask in
      let tree = (rb_replace asks.tree pair).0 in
      if eqb_ℤ vol_ask (pos 0)
      then (let removed = record asks { tree = (rb_delete tree pair).0 } in
          if eqb_ℤ price_ask asks.price_ask
          then new_best_ask removed specific_index
          else same_best_ask removed specific_index (prev_index_spec specific_index))
      else if not (ltb_ℤ asks.price_ask price_ask)
      then record asks {
        tree = tree;
        price_ask = price_ask;
        vol_ask = vol_ask;
        history = write asks.history specific_index vol_ask;
      }
      else same_best_ask (record asks { tree = tree }) specific_index (prev_index specific_index)
