-- ===== src/Refinement.antt =====
-- The worker and the producer against the market: what relates their states, and what is assumed of
-- the updates.
pub mod Insert
pub mod Report
pub mod Handle
pub mod Run
pub mod Start
pub mod Errors
use rsj.Prelude.{ℕ, ◌+◌, ◌%◌, ◌^◌, ◌<◌, ◌≡◌, ◌≢◌, true, false, []}
use rsj.Prelude.Int.{eqb_ℤ}
use rsj.Structures.{RsjPair, instrument_count, history_size, specific_history_size}
use rsj.Helpers.{prev_index, next_index, prev_index_spec}
use rsj.OrderBook.Best.{IsBid, IsAsk}
use rsj.Table.{pair_of}
use rsj.Platform.{Platform}
use rsj.Context.{Context}
use rsj.Worker.{side_buying}
use rsj.Worker.Insert.{TracksBooks}
use rsj.Producer.{Update}
use rsj.Market.{Market}

-- What is assumed of an update: its instrument exists, and its price and volume are within the
-- bounds of its side of the book.
pub record IsUpdate (u : Update) : Type 0 where
  pub instrument : u.instrument < instrument_count
  pub bid : eqb_ℤ u.side side_buying ≡ true → IsBid (pair_of u.volume u.price)
  pub ask : eqb_ℤ u.side side_buying ≡ false → IsAsk (pair_of u.volume u.price)

module _ (P : Platform) where
  -- Instrument `i` of the state is that of the market, and `last` is the place of its latest update.
  pub record TracksInstrument (m : Market P) (c : Context P) (i last : ℕ) : Type 0 where
    pub books : TracksBooks P m.bids m.asks c i last
    pub fp : c.fp_i_history i last ≡ m.fp i

  -- It is the turn of the update after the one at place `last`: both flags of that place are set,
  -- and its sum is the market's.
  pub record TracksSum (m : Market P) (c : Context P) (last : ℕ) : Type 0 where
    pub order_set : P.sync.is_set (c.order last) ≡ true
    pub order_sum_set : P.sync.is_set (c.order_sum last) ≡ true
    pub total : c.sum_history last ≡ m.total
    pub results : c.results ≡ m.results

  -- What the pass of an update of instrument `i` at the places `oi` and `s` leaves alone: all but the
  -- consumer's results, the instrument's trees and cached levels, and the entries at these places;
  -- the flags of the place after `oi` are taken back.
  pub record Frame (i oi s : ℕ) (c c' : Context P) : Type 0 where
    pub running : c'.running ≡ c.running
    pub global_id : c'.global_id ≡ c.global_id
    pub order_index : c'.order_index ≡ c.order_index
    pub order_indices_bid : c'.order_indices_bid ≡ c.order_indices_bid
    pub buffer : c'.buffer ≡ c.buffer
    pub bids : (j : ℕ) → j ≢ i → c'.bids j ≡ c.bids j
    pub asks : (j : ℕ) → j ≢ i → c'.asks j ≡ c.asks j
    pub fp : (j : ℕ) → j ≢ i → c'.fp_i_history j ≡ c.fp_i_history j
    pub bid_entries : (k : ℕ) → k ≢ s → (c'.bids i).history k ≡ (c.bids i).history k
    pub ask_entries : (k : ℕ) → k ≢ s → (c'.asks i).history k ≡ (c.asks i).history k
    pub fp_entries : (k : ℕ) → k ≢ s → c'.fp_i_history i k ≡ c.fp_i_history i k
    pub sums : (k : ℕ) → k ≢ oi → c'.sum_history k ≡ c.sum_history k
    pub order : (k : ℕ) → k ≢ oi → k ≢ next_index oi → c'.order k ≡ c.order k
    pub order_sum : (k : ℕ) → k ≢ oi → k ≢ next_index oi → c'.order_sum k ≡ c.order_sum k
    pub order_next : c'.order (next_index oi) ≡ P.sync.unset (c.order (next_index oi))
    pub order_sum_next : c'.order_sum (next_index oi) ≡ P.sync.unset (c.order_sum (next_index oi))

  -- Between two updates: every instrument is tracked at the place before its counter's, the sum at
  -- the place before that of the counter of all updates, and the ring is empty.
  pub record Tracks (m : Market P) (c : Context P) : Type 0 where
    pub counter : c.order_index < 2 ^ 32
    pub counters : (i : ℕ) → c.order_indices_bid i < 2 ^ 32
    pub instruments :
        (i : ℕ)
        → i < instrument_count
        → TracksInstrument m c i (prev_index_spec (c.order_indices_bid i % specific_history_size))
    pub sum : TracksSum m c (prev_index (c.order_index % history_size))
    pub empty : P.ring.contents c.buffer ≡ []
    pub room : P.ring.capacity c.buffer ≡ 1
