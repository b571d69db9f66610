-- ===== src/Refinement/Handle.antt =====
-- A worker's whole pass over an update whose turn it is.
use rsj.Prelude.{ℕ, ◌<◌, ◌≡◌, ◌≢◌, refl, sym, ◌∙◌, ap, inl, inr, write_ne, Bool-cases, ltb_of_lt}
use rsj.Prelude.Int.{eqb_ℤ}
use rsj.Structures.{instrument_count, history_size, specific_history_size}
use rsj.Helpers.{prev_index, prev_index_spec}
use rsj.Platform.{Platform}
use rsj.Context.{Context, done, ◌>>=◌}
use rsj.Worker.{handle_update, side_buying, not_enough}
use rsj.OrderBook.{best_bid, best_ask}
use rsj.Producer.{Update, placed}
use rsj.Market.{Market, trade, set_books, report}
use rsj.Refinement.{IsUpdate, TracksInstrument, TracksSum, Frame}
use rsj.Refinement.Insert.{insert_data_tracks, prepared}
use rsj.Refinement.Report.{report_update_tracks}

module _ (P : Platform) (u : Update) (m : Market P) where
  -- Setting the level of a book changes nothing else.
  set_books-fp : (set_books P u m).fp ≡ m.fp
  unfolding set_books
  set_books-fp = elim (Bool-cases (eqb_ℤ u.side side_buying)) [ inl h ↦ rw h | inr h ↦ rw h ]

  set_books-total : (set_books P u m).total ≡ m.total
  unfolding set_books
  set_books-total = elim (Bool-cases (eqb_ℤ u.side side_buying)) [ inl h ↦ rw h | inr h ↦ rw h ]

  set_books-results : (set_books P u m).results ≡ m.results
  unfolding set_books
  set_books-results = elim (Bool-cases (eqb_ℤ u.side side_buying)) [ inl h ↦ rw h | inr h ↦ rw h ]

  -- The market's other instruments are untouched by an update.
  pub record Untouched (j : ℕ) (m' : Market P) : Type 0 where
    pub bids : m'.bids j ≡ m.bids j
    pub asks : m'.asks j ≡ m.asks j
    pub fp : m'.fp j ≡ m.fp j

  set_books-Untouched : (j : ℕ) → j ≢ u.instrument → Untouched j (set_books P u m)
  unfolding set_books
  set_books-Untouched j ne = elim (Bool-cases (eqb_ℤ u.side side_buying)) [
    | inl h ↦ rw h (record { bids = write_ne m.bids u.instrument j _ ne; asks = refl; fp = refl })
    | inr h ↦ rw h (record { bids = refl; asks = write_ne m.asks u.instrument j _ ne; fp = refl })
  ]

report-others :
    (P : Platform) (u : Update) (m : Market P) (j : ℕ)
    → j ≢ u.instrument
    → Untouched P u m j (report P u m)
unfolding report
report-others P u m j ne =
    elim (Bool-cases (
      not_enough (best_ask (m.asks u.instrument)).vol_bid (best_bid (m.bids u.instrument)).vol_bid
        (best_bid (m.bids u.instrument)).price_bid)) [
          | inl h ↦
              rw h (record { bids = refl; asks = refl; fp = write_ne m.fp u.instrument j _ ne })
          | inr h ↦
              rw h (record { bids = refl; asks = refl; fp = write_ne m.fp u.instrument j _ ne })
        ]

pub trade-Untouched :
    (P : Platform) (u : Update) (m : Market P) (j : ℕ)
    → j ≢ u.instrument
    → Untouched P u m j (trade P u m)
unfolding trade
trade-Untouched P u m j ne =
    let a = set_books-Untouched P u m j ne in
    let b = report-others P u (set_books P u m) j ne in
    record { bids = b.bids ∙ a.bids; asks = b.asks ∙ a.asks; fp = b.fp ∙ a.fp }

module _ (P : Platform) (u : Update) (m : Market P) (c : Context P) (oi s : ℕ) where
  abbrev i : ℕ
  i = u.instrument

  -- What a pass leaves: the market after the update.
  pub record Handled (c' : Context P) : Type 0 where
    pub ends : handle_update P (placed u oi s) c ≡ done tt c'
    pub instrument : TracksInstrument P (trade P u m) c' i s
    pub sum : TracksSum P (trade P u m) c' oi
    pub frame : Frame P i oi s c c'

  -- At its turn, an update within the bounds is handled to the end: no loop waits, nothing undefined is
  -- done, and the instrument, the sum and the results are those of the market after the update.
  -- All else is as before, but for the flags of the next place, which are unset: the counters, the
  -- ring, `running` and `global_id`, the other instruments, and the entries at other places.
  pub handle_update_tracks :
      IsUpdate u
      → oi < history_size
      → s < specific_history_size
      → TracksInstrument P m c i (prev_index_spec s)
      → TracksSum P m c (prev_index oi)
      → (c' : Context P) × Handled c'
  unfolding trade handle_update prepared
  handle_update_tracks v oi_in s_in t w =
      let (c2, x) = insert_data_tracks P u m c oi s v oi_in w.order_set t.books in
      let (c', y) =
        report_update_tracks P u (set_books P u m) c c2 oi s x
          (w.total ∙ sym (set_books-total P u m)) (t.fp ∙ sym (ap (λ f. f i) (set_books-fp P u m)))
          w.order_sum_set (w.results ∙ sym (set_books-results P u m)) oi_in s_in in
      (
        c',
        record {
          ends =
              rw
                (
                  ltb_of_lt i instrument_count v.instrument,
                  ltb_of_lt oi history_size oi_in,
                  ltb_of_lt s specific_history_size s_in,
                )
                (rw (x.ends, ◌>>=◌) y.ends);
          instrument = y.instrument;
          sum = y.sum;
          frame = y.frame;
        },
      )
