-- ===== src/Refinement/Run.antt =====
-- The producer and a worker in turns, from the initial state: the results are the market's.
use rsj.Prelude.{
  ℕ, ◌+◌, ◌%◌, ◌^◌, ◌<◌, ◌≡◌, ◌≢◌, refl, sym, ◌∙◌, ap, subst, List, [], ◌∷◌, ◌++◌, All, arith, some,
  inl, inr, Bool-cases, ◌==◌, write, write_self, write_ne, ltb_of_lt,
}
use native.Mathlib.Decide.{ℕ_discrete}
use rsj.Structures.{instrument_count, history_size, specific_history_size}
use rsj.Helpers.{prev_index, prev_index_spec, counter_walks}
use rsj.Platform.{Platform}
use rsj.Context.{Context, Outcome, done, ◌>>=◌, ◌>>◌, pure}
use rsj.Worker.{worker_round, handle_update}
use rsj.Producer.{Update, placed, numbered, update_c_style, enqueue}
use rsj.Market.{Market, trade}
use rsj.Refinement.{IsUpdate, TracksInstrument, TracksSum, Tracks}
use rsj.Refinement.Handle.{Handled, handle_update_tracks, trade-Untouched}

module _ (P : Platform) where
  -- One update from the producer to its result, and a sequence of them.
  unfoldable pub one_update : Update → Context P → Outcome (Context P) (Unit {0})
  one_update u = update_c_style P u >> worker_round P

  unfoldable pub process : List Update → Context P → Outcome (Context P) (Unit {0})
  process [] = pure tt
  process (u ∷ us) = one_update u >> process us

  unfoldable pub trade_all : List Update → Market P → Market P
  trade_all [] m = m
  trade_all (u ∷ us) m = trade_all us (trade P u m)

  module _ (u : Update) (m : Market P) (c : Context P) (v : IsUpdate u) (t : Tracks P m c) where
    abbrev i : ℕ
    i = u.instrument

    abbrev oi : ℕ
    oi = c.order_index % history_size

    abbrev s : ℕ
    s = c.order_indices_bid i % specific_history_size

    -- The state between the producer's call and the worker's, with the ring `r`.
    counted : P.ring.Ring → Context P
    counted r = record c {
      order_index = (c.order_index + 1) % 2 ^ 32;
      order_indices_bid = write c.order_indices_bid i ((c.order_indices_bid i + 1) % 2 ^ 32);
      buffer = r;
    }

    record Handed : Type 0 where
      full : P.ring.Ring
      emptied : P.ring.Ring
      enqueued : P.ring.enqueue_spmc c.buffer (numbered P u c) ≡ some full
      dequeued : P.ring.dequeue_spmc full ≡ some (numbered P u c, emptied)
      empty : P.ring.contents emptied ≡ []
      room : P.ring.capacity emptied ≡ 1

    handed : Handed
    handed =
        let (r, put) =
          P.ring.enqueue_room c.buffer (numbered P u c) (rw (t.empty, t.room) (omega arith)) in
        let (held, cap) = P.ring.enqueue_some c.buffer (numbered P u c) r put in
        let (r', took, left, cap') =
          P.ring.dequeue_first r (numbered P u c) []
            (held ∙ ap (λ l. l ++ numbered P u c ∷ []) t.empty) in
        record {
          full = r;
          emptied = r';
          enqueued = put;
          dequeued = took;
          empty = left;
          room = cap' ∙ cap ∙ t.room;
        }

    one_update_runs : one_update u c ≡ handle_update P (placed u oi s) (counted handed.emptied)
    unfolding one_update update_c_style worker_round counted numbered enqueue
    one_update_runs =
        rw (ltb_of_lt i instrument_count v.instrument)
          (rw (handed.enqueued, ◌>>=◌) (rw (handed.dequeued, worker_round) refl))

    abbrev ready : Context P
    ready = counted handed.emptied

    -- The tracked instrument after the pass, at the place before that of its counter.
    same_instrument :
        (c' : Context P)
        → Handled P u m ready oi s c'
        → TracksInstrument P
            (trade P u m)
            c'
            i
            (prev_index_spec (c'.order_indices_bid i % specific_history_size))
    unfolding counted
    same_instrument c' h =
        let count : c'.order_indices_bid i ≡ (c.order_indices_bid i + 1) % 2 ^ 32 =
          ap (λ f. f i) h.frame.order_indices_bid ∙ write_self c.order_indices_bid i _ in
        rw (count, (counter_walks (c.order_indices_bid i) (t.counters i)).1) h.instrument

    other_instrument :
        (c' : Context P) (j : ℕ)
        → Handled P u m ready oi s c'
        → j < instrument_count
        → j ≢ i
        → TracksInstrument P
            (trade P u m)
            c'
            j
            (prev_index_spec (c'.order_indices_bid j % specific_history_size))
    unfolding counted
    other_instrument c' j h lt ne =
        let old = t.instruments j lt in
        let same = trade-Untouched P u m j ne in
        let count : c'.order_indices_bid j ≡ c.order_indices_bid j =
          ap (λ f. f j) h.frame.order_indices_bid ∙ write_ne c.order_indices_bid i j _ ne in
        rw count (record {
          books = record {
            bid = rw (same.bids, h.frame.bids j ne) old.books.bid;
            ask = rw (same.asks, h.frame.asks j ne) old.books.ask;
          };
          fp =
              ap (λ f. f (prev_index_spec (c.order_indices_bid j % specific_history_size)))
                (h.frame.fp j ne)
              ∙ old.fp
              ∙ sym same.fp;
        })

    wrapped_counters : (j : ℕ) → (counted handed.emptied).order_indices_bid j < 2 ^ 32
    unfolding counted
    wrapped_counters j = elim (Bool-cases (j == i)) [
      | inl e ↦ rw e (omega arith)
      | inr e ↦ rw e (t.counters j)
    ]

    ready-Handled : (c' : Context P) × Handled P u m ready oi s c'
    unfolding counted
    ready-Handled =
        let old = t.instruments i v.instrument in
        handle_update_tracks P u m ready oi s v (omega arith) (omega arith)
          (record { books = record { bid = old.books.bid; ask = old.books.ask }; fp = old.fp })
          (record {
            order_set = t.sum.order_set;
            order_sum_set = t.sum.order_sum_set;
            total = t.sum.total;
            results = t.sum.results;
          })

    Handled-Tracks : (c' : Context P) → Handled P u m ready oi s c' → Tracks P (trade P u m) c'
    unfolding counted
    Handled-Tracks c' h = record {
      counter = rw h.frame.order_index (omega arith);
      counters = λ j. rw h.frame.order_indices_bid (wrapped_counters j);
      instruments = λ j lt. elim (ℕ_discrete j i) [
        | yes e ↦ rw e (same_instrument c' h)
        | no ne ↦ other_instrument c' j h lt ne
      ];
      sum = subst (λ k. TracksSum P (trade P u m) c' k) (sym place) h.sum;
      empty = ap P.ring.contents h.frame.buffer ∙ handed.empty;
      room = ap P.ring.capacity h.frame.buffer ∙ handed.room;
    }
      where
        place : prev_index (c'.order_index % history_size) ≡ oi
        place =
            ap (λ k. prev_index (k % history_size)) h.frame.order_index
            ∙ (counter_walks c.order_index t.counter).0

    -- One update, sent and handled, ends and leaves the state of the market after it.
    pub one_update-Tracks :
        (c' : Context P) × (one_update u c ≡ done tt c') × Tracks P (trade P u m) c'
    one_update-Tracks =
        let (c', h) = ready-Handled in (c', one_update_runs ∙ h.ends, Handled-Tracks c' h)

  -- Any sequence of updates within the bounds is processed to the end, from any state that tracks a
  -- market, and leaves the state of the market after them.
  pub process-Tracks :
      (us : List Update) (m : Market P) (c : Context P)
      → All IsUpdate us
      → Tracks P m c
      → (c' : Context P) × (process us c ≡ done tt c') × Tracks P (trade_all us m) c'
  unfolding process trade_all
  process-Tracks [] m c v t = (c, refl, t)
  process-Tracks (u ∷ us) m c v t =
      let (c1, runs, t1) = one_update-Tracks u m c v.0 t in
      let (c2, goes, t2) = process-Tracks us (trade P u m) c1 v.1 t1 in
      (c2, rw (runs, ◌>>=◌) goes, t2)
