-- ===== src/Tests/Sides.antt =====
-- The two sides of an instrument (table.h), the comparison (init.cc) and the indices (helpers.h).
use rsj.Prelude.{◌+◌, ◌-◌, ◌%◌, ◌^◌, ◌≡◌, ◌≢◌, ◌↔◌, refl, [], ◌∷◌, arith}
use rsj.Prelude.Int.{pos, ◌≤ℤ◌}
use rsj.Structures.{LookupBid, LookupAsk, history_size, specific_history_size}
use rsj.Helpers.{prev_index, next_index, prev_index_spec, index_inverse, counter_walks}
use rsj.Comparison.{int_comparison, int_comparison_sign}
use rsj.OrderBook.{Book, level, set_level, highest, lowest, best_bid, best_ask}
use rsj.OrderBook.Laws.{book_table}
use rsj.Table.{pair_of, bids_update, asks_update}
use rsj.Platform.Sample.{sample}
use rsj.Worker.{copy_ask}
use rsj.Worker.Race.{copy_ask_race}
use rsj.Table.Bids.{TracksBids, bids_update-TracksBids}
use rsj.Table.Asks.{TracksAsks, asks_update-TracksAsks}

-- One level at 100, cached, at place 4 of the history.
abbrev book : Book
book = pair_of (pos 10) (pos 100) ∷ []

abbrev bids : LookupBid Book
bids = record {
  vol_bid = pos 10;
  price_bid = pos 100;
  tree = book;
  history = λ j. pair_of (pos 10) (pos 100);
}

abbrev asks : LookupAsk Book
asks = record { vol_ask = pos 10; price_ask = pos 100; tree = book; history = λ j. pos 10 }

bids-TracksBids : TracksBids book_table book (prev_index_spec 5) bids
unfolding best_bid highest level
bids-TracksBids = record {
  agrees = λ x. refl;
  valid = λ y z q. ground arith;
  cached = refl;
  current = refl;
}

asks-TracksAsks : TracksAsks book_table book (prev_index_spec 5) asks
unfolding best_ask lowest level
asks-TracksAsks = record {
  agrees = λ x. refl;
  valid = λ y z q. ground arith;
  cached = refl;
  current = refl;
}

-- The best level is withdrawn.
bids_update-TracksBids_example :
    TracksBids book_table
      (set_level book (pair_of (pos 0) (pos 100)))
      5
      (bids_update book_table bids 5 (pos 0) (pos 100))
bids_update-TracksBids_example =
    bids_update-TracksBids book_table book bids 5 (pos 0) (pos 100) (omega arith) bids-TracksBids

-- A better ask arrives.
asks_update-TracksAsks_example :
    TracksAsks book_table
      (set_level book (pair_of (pos 7) (pos 99)))
      5
      (asks_update book_table asks 5 (pos 7) (pos 99))
asks_update-TracksAsks_example =
    asks_update-TracksAsks book_table book asks 5 (pos 7) (pos 99) (omega arith) asks-TracksAsks

int_comparison_sign_example :
    ((int_comparison (pair_of (pos 1) (pos 5)) (pair_of (pos 2) (pos 5)) ≡ pos 0) ↔ (pos 5 ≡ pos 5))
    × ((int_comparison (pair_of (pos 1) (pos 5)) (pair_of (pos 2) (pos 5)) ≤ℤ pos 0)
        ↔ (pos 5 ≤ℤ pos 5))
int_comparison_sign_example =
    int_comparison_sign (pair_of (pos 1) (pos 5)) (pair_of (pos 2) (pos 5))

-- At the wrap-around of the counter.
counter_walks_example :
    (prev_index ((2 ^ 32 - 1 + 1) % 2 ^ 32 % history_size) ≡ (2 ^ 32 - 1) % history_size)
    × (prev_index_spec ((2 ^ 32 - 1 + 1) % 2 ^ 32 % specific_history_size)
        ≡ (2 ^ 32 - 1) % specific_history_size)
counter_walks_example = counter_walks (2 ^ 32 - 1) (omega arith)

index_inverse_example :
    (prev_index (next_index 15) ≡ 15) × (next_index (prev_index 15) ≡ 15) × (prev_index 15 ≢ 15)
index_inverse_example = index_inverse 15 (omega arith)

-- The best ask is at 100; entry j of the history is j.
abbrev racing : LookupAsk sample.rb.Table
racing = record {
  vol_ask = pos 10;
  price_ask = pos 100;
  tree = sample.rb.rb_create;
  history = λ j. pos j;
}

copy_ask_race_example :
    ((asks_update sample.rb (copy_ask sample racing 3) (next_index 3) (pos 5) (pos 200)).history
        (next_index 3)
      ≡ racing.history (prev_index_spec 3))
    × ((copy_ask sample (asks_update sample.rb racing (next_index 3) (pos 5) (pos 200)) 3).history
          (next_index 3)
        ≡ racing.history 3)
copy_ask_race_example = copy_ask_race sample racing 3 (pos 5) (pos 200) (omega arith) refl refl
