-- ===== src/Refinement/Report.antt =====
-- The second half of a worker's pass: the result, the sum and the instrument's part of it.
use rsj.Prelude.{
  ℕ, ◌<◌, ◌≡◌, ◌≢◌, sym, ◌∙◌, ap, arith, Bool, true, false, inl, inr, ◌∷◌, write, write_self,
  write_ne, Bool-cases,
}
use rsj.Prelude.Int.{ℤ, ◌+ℤ◌}
use rsj.Structures.{RsjDataIn, RsjPair, history_size, specific_history_size}
use rsj.Helpers.{prev_index, next_index, prev_index_spec, prev_index-ne-next, next_index-ne}
use rsj.OrderBook.{best_bid, best_ask}
use rsj.OrderBook.Best.{IsVolume}
use rsj.OrderBook.Best.Bids.{best_bid-IsVolume}
use rsj.OrderBook.Best.Asks.{best_ask-IsVolume}
use rsj.Platform.{Platform}
use rsj.Context.{Context, done}
use rsj.Worker.{report_update, not_enough, is_int, ratio}
use rsj.Worker.Insert.{turned-is_set, turned-ne}
use rsj.Worker.Report.{stored, rest_of_sum, new_fp, history_shift_ends, compute_return_fp_i_ends}
use rsj.Producer.{Update, placed}
use rsj.Market.{Market, report}
use rsj.Refinement.{TracksInstrument, TracksSum, Frame}
use rsj.Refinement.Insert.{Inserted, prepared}

-- Two volumes add up to an `int`.
pub is_int_sum : (a b : ℤ) → IsVolume a → IsVolume b → is_int (a +ℤ b) ≡ true
unfolding ◌+ℤ◌
is_int_sum a b h k = ground arith

module _ (P : Platform) (u : Update) (m : Market P) (c c2 : Context P) (oi s : ℕ) where
  open P.sync use {is_set}
  open P.doubles use {Double, decimal, add, sub}

  abbrev i : ℕ
  i = u.instrument

  abbrev d : RsjDataIn
  d = placed u oi s

  abbrev bid : RsjPair
  bid = best_bid (m.bids i)

  abbrev ask : RsjPair
  ask = best_ask (m.asks i)

  abbrev lacking : Bool
  lacking = not_enough ask.vol_bid bid.vol_bid bid.price_bid

  abbrev rest : Double
  rest = sub m.total (m.fp i)

  abbrev fresh : Double
  fresh = new_fp P bid.vol_bid ask.vol_bid bid.price_bid

  -- What the market does, by cases.
  report-lacking :
      lacking ≡ true
      → report P u m ≡ record m {
        fp = write m.fp i (decimal 0 0);
        total = rest;
        results = (u.seq_num, decimal 0 0) ∷ m.results;
      }
  unfolding report
  report-lacking h = rw h

  report-enough :
      lacking ≡ false
      → report P u m ≡ record m {
        fp = write m.fp i fresh;
        total = add rest fresh;
        results = (u.seq_num, ratio P fresh (add rest fresh)) ∷ m.results;
      }
  unfolding report
  report-enough h = rw h

  module _ (x : Inserted P u m d c c2) (total : c.sum_history (prev_index oi) ≡ m.total)
      (fp : c.fp_i_history i (prev_index_spec s) ≡ m.fp i)
      (turn : is_set (c.order_sum (prev_index oi)) ≡ true) (results : c.results ≡ m.results)
      (oi_in : oi < history_size) (s_in : s < specific_history_size) where
    sum_turn : is_set (c2.order_sum (prev_index oi)) ≡ true
    unfolding prepared
    sum_turn =
        ap (λ f. is_set (f (prev_index oi))) x.order_sum
        ∙ ap is_set
            (write_ne c.order_sum (next_index oi) (prev_index oi) _ (prev_index-ne-next oi oi_in))
        ∙ turn

    rest_eq : rest_of_sum P d c2 ≡ rest
    rest_eq =
        ap (λ f. sub (f (prev_index oi)) (c2.fp_i_history i (prev_index_spec s))) x.sum_history
        ∙ ap (λ v. sub v (c2.fp_i_history i (prev_index_spec s))) total
        ∙ ap (λ f. sub m.total (f i (prev_index_spec s))) x.fp_i_history
        ∙ ap (sub m.total) fp

    int_sum : is_int (bid.vol_bid +ℤ ask.vol_bid) ≡ true
    int_sum =
        is_int_sum bid.vol_bid ask.vol_bid (best_bid-IsVolume (m.bids i) x.books.bid.valid)
          (best_ask-IsVolume (m.asks i) x.books.ask.valid)

    zero_reported : Context P
    zero_reported = record c2 { results = (u.seq_num, decimal 0 0) ∷ c2.results }

    -- The two states that `report_update` ends in.
    shifted : Context P
    unfolding zero_reported
    shifted = stored P d (decimal 0 0) rest zero_reported

    computed : Context P
    computed = record (stored P d fresh (add rest fresh) c2) {
      results = (u.seq_num, ratio P fresh (add rest fresh)) ∷ c2.results;
    }

    report_update_shift : lacking ≡ true → report_update P d c2 ≡ done tt shifted
    unfolding report_update shifted
    report_update_shift h =
        rw (x.books.bid.current, x.books.ask.current)
          (rw h (
            history_shift_ends P d zero_reported sum_turn s_in
            ∙ ap (λ r. done tt (stored P d (decimal 0 0) r zero_reported)) rest_eq))

    report_update_compute : lacking ≡ false → report_update P d c2 ≡ done tt computed
    unfolding report_update computed
    report_update_compute h =
        rw (x.books.bid.current, x.books.ask.current)
          (rw h (
            compute_return_fp_i_ends P d c2 sum_turn bid.vol_bid ask.vol_bid bid.price_bid int_sum
            ∙ ap
                (λ r. done tt (record (stored P d fresh (add r fresh) c2) {
                  results = (u.seq_num, ratio P fresh (add r fresh)) ∷ c2.results;
                }))
                rest_eq))

    -- The state after the pass: the market's, and every other instrument is as before.
    pub record Reported (c' : Context P) : Type 0 where
      pub ends : report_update P d c2 ≡ done tt c'
      pub instrument : TracksInstrument P (report P u m) c' i s
      pub sum : TracksSum P (report P u m) c' oi
      pub frame : Frame P i oi s c c'

    stored_fp :
        (v : Double)
        → write c2.fp_i_history i (write (c2.fp_i_history i) s v) i s ≡ write m.fp i v i
    stored_fp v =
        ap (λ f. f s) (write_self c2.fp_i_history i _)
        ∙ write_self (c2.fp_i_history i) s v
        ∙ sym (write_self m.fp i v)

    stored_frame :
        (v : Double) (j : ℕ)
        → j ≢ i
        → write c2.fp_i_history i (write (c2.fp_i_history i) s v) j ≡ c.fp_i_history j
    stored_frame v j ne = write_ne c2.fp_i_history i j _ ne ∙ ap (λ f. f j) x.fp_i_history

    stored_entries :
        (v : Double) (k : ℕ)
        → k ≢ s
        → write c2.fp_i_history i (write (c2.fp_i_history i) s v) i k ≡ c.fp_i_history i k
    stored_entries v k ne =
        ap (λ f. f k) (write_self c2.fp_i_history i _)
        ∙ write_ne (c2.fp_i_history i) s k v ne
        ∙ ap (λ f. f i k) x.fp_i_history

    shifted-Reported : lacking ≡ true → Reported shifted
    unfolding shifted stored
    shifted-Reported h = record {
      ends = report_update_shift h;
      instrument = rw (report-lacking h) (record {
        books = record { bid = x.books.bid; ask = x.books.ask };
        fp = stored_fp (decimal 0 0);
      });
      sum = rw (report-lacking h) (record {
        order_set = x.order_set;
        order_sum_set = turned-is_set P c2.order_sum oi;
        total = write_self c2.sum_history oi rest;
        results = ap (λ r. (u.seq_num, decimal 0 0) ∷ r) (x.results ∙ results);
      });
      frame = record {
        running = x.frame.running;
        global_id = x.frame.global_id;
        order_index = x.frame.order_index;
        order_indices_bid = x.frame.order_indices_bid;
        buffer = x.frame.buffer;
        bids = x.frame.bids;
        asks = x.frame.asks;
        fp = stored_frame (decimal 0 0);
        bid_entries = x.frame.bid_entries;
        ask_entries = x.frame.ask_entries;
        fp_entries = stored_entries (decimal 0 0);
        sums = λ k ne. write_ne c2.sum_history oi k _ ne ∙ x.frame.sums k ne;
        order = x.frame.order;
        order_sum = λ k own next. turned-ne P c2.order_sum oi k own ∙ x.frame.order_sum k own next;
        order_next = x.frame.order_next;
        order_sum_next =
            turned-ne P c2.order_sum oi (next_index oi) (λ e. next_index-ne oi oi_in (sym e))
            ∙ x.frame.order_sum_next;
      };
    }

    computed-Reported : lacking ≡ false → Reported computed
    unfolding computed stored
    computed-Reported h = record {
      ends = report_update_compute h;
      instrument = rw (report-enough h) (record {
        books = record { bid = x.books.bid; ask = x.books.ask };
        fp = stored_fp fresh;
      });
      sum = rw (report-enough h) (record {
        order_set = x.order_set;
        order_sum_set = turned-is_set P c2.order_sum oi;
        total = write_self c2.sum_history oi _;
        results = ap (λ r. (u.seq_num, ratio P fresh (add rest fresh)) ∷ r) (x.results ∙ results);
      });
      frame = record {
        running = x.frame.running;
        global_id = x.frame.global_id;
        order_index = x.frame.order_index;
        order_indices_bid = x.frame.order_indices_bid;
        buffer = x.frame.buffer;
        bids = x.frame.bids;
        asks = x.frame.asks;
        fp = stored_frame fresh;
        bid_entries = x.frame.bid_entries;
        ask_entries = x.frame.ask_entries;
        fp_entries = stored_entries fresh;
        sums = λ k ne. write_ne c2.sum_history oi k _ ne ∙ x.frame.sums k ne;
        order = x.frame.order;
        order_sum = λ k own next. turned-ne P c2.order_sum oi k own ∙ x.frame.order_sum k own next;
        order_next = x.frame.order_next;
        order_sum_next =
            turned-ne P c2.order_sum oi (next_index oi) (λ e. next_index-ne oi oi_in (sym e))
            ∙ x.frame.order_sum_next;
      };
    }

    pub report_update_tracks : (c' : Context P) × Reported c'
    report_update_tracks = elim (Bool-cases lacking) [
      | inl h ↦ (shifted, shifted-Reported h)
      | inr h ↦ (computed, computed-Reported h)
    ]
