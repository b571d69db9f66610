-- ===== src/Market.antt =====
-- The specification of the processor: the order books, one value of fp for each instrument, their
-- sum, and the results. It has no histories, no flags and no ring, and takes one update at a time.
use rsj.Prelude.{ℕ, List, [], ◌∷◌, write, if◌then◌else◌}
use rsj.Prelude.Int.{ℤ, eqb_ℤ, ◌+ℤ◌}
use rsj.OrderBook.{Book, set_level, best_bid, best_ask}
use rsj.Table.{pair_of}
use rsj.Platform.{Platform}
use rsj.Producer.{Update}
use rsj.Worker.{side_buying, compute_fp_i, ratio, not_enough}

pub record MarketOf (Double : Type 0) : Type 0 where
  pub bids : ℕ → Book
  pub asks : ℕ → Book
  pub fp : ℕ → Double
  pub total : Double
  pub results : List (ℤ × Double)

abbrev pub Market : Platform → Type 0
Market P = MarketOf P.doubles.Double

module _ (P : Platform) where
  open P.doubles use {Double, decimal, of_int, add, sub, div}

  -- Before the first update.
  unfoldable pub opening : Market P
  opening = record {
    bids = λ i. [];
    asks = λ i. [];
    fp = λ i. decimal 0 0;
    total = decimal 0 0;
    results = [];
  }

  -- The update's level is set in its side of its instrument's books.
  unfoldable pub set_books : Update → Market P → Market P
  set_books u m =
      let x = pair_of u.volume u.price in
      if eqb_ℤ u.side side_buying
      then record m { bids = write m.bids u.instrument (set_level (m.bids u.instrument) x) }
      else record m { asks = write m.asks u.instrument (set_level (m.asks u.instrument) x) }

  -- The instrument's part of the sum is taken out, and the new one put in.
  unfoldable pub report : Update → Market P → Market P
  report u m =
      let i = u.instrument in
      let bid = best_bid (m.bids i) in
      let ask = best_ask (m.asks i) in
      let rest = sub m.total (m.fp i) in
      if not_enough ask.vol_bid bid.vol_bid bid.price_bid
      then record m {
        fp = write m.fp i (decimal 0 0);
        total = rest;
        results = (u.seq_num, decimal 0 0) ∷ m.results;
      }
      else (let v =
            compute_fp_i P (div (of_int bid.vol_bid) (of_int (bid.vol_bid +ℤ ask.vol_bid)))
              bid.price_bid in
          record m {
            fp = write m.fp i v;
            total = add rest v;
            results = (u.seq_num, ratio P v (add rest v)) ∷ m.results;
          })

  unfoldable pub trade : Update → Market P → Market P
  unfolding set_books report
  trade u m = report u (set_books u m)
