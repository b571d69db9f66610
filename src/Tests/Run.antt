-- ===== src/Tests/Run.antt =====
-- The processor on a few updates: worker.cc, table.h, worker.h and init.cc on the sample platform.
use rsj.Prelude.{ltb, ◌&&◌, true, ℕ, ◌≡◌, List, [], ◌∷◌, arith, All}
use rsj.Prelude.Int.{ℤ, pos}
use rsj.Platform.Sample.{sample}
use rsj.Context.{Context, Outcome, done, spins, fault}
use rsj.Structures.{instrument_count, history_size, specific_history_size}
use rsj.Worker.Waits.{handle_update_in_turn}
use rsj.Producer.{Update, placed}
use rsj.Init.{initialize_c_style}
use rsj.Market.{opening, trade}
use rsj.Helpers.{prev_index, prev_index_spec}
use rsj.Threads.Defs.{World, testing, clearing_next}
use rsj.Threads.Pass.{Steps, worker_alone}
use rsj.Refinement.{IsUpdate, Tracks, TracksInstrument, TracksSum, Frame}
use rsj.Refinement.Handle.{Handled, handle_update_tracks}
use rsj.Refinement.Run.{process, trade_all}
use rsj.Refinement.Start.{process_results, initialize-Tracks}

abbrev buy : ℕ → ℕ → ℕ → Update
buy n price volume = record {
  seq_num = pos n;
  instrument = 3;
  price = pos price;
  volume = pos volume;
  side = pos 0;
}

abbrev sell : ℕ → ℕ → ℕ → Update
sell n price volume = record {
  seq_num = pos n;
  instrument = 3;
  price = pos price;
  volume = pos volume;
  side = pos 1;
}

-- A book is built up, its best bid is withdrawn, and at last its only ask.
abbrev session : List Update
session = buy 1 100 10 ∷ sell 2 105 20 ∷ buy 3 101 5 ∷ buy 4 101 0 ∷ sell 5 105 0 ∷ []

session-IsUpdate : All IsUpdate session
session-IsUpdate = ground arith

process_results_example :
    (c' : Context sample) × (process sample session (initialize_c_style sample) ≡ done tt c')
    × (c'.results ≡ (trade_all sample session (opening sample)).results)
process_results_example = process_results sample session session-IsUpdate

initialize-Tracks_example : Tracks sample (opening sample) (initialize_c_style sample)
initialize-Tracks_example = initialize-Tracks sample

-- The first update of the session, at its turn in the initial state.
handle_update_tracks_example :
    (c' : Context sample) × Handled sample
      (buy 1 100 10)
      (opening sample)
      (initialize_c_style sample)
      0
      0
      c'
unfolding prev_index prev_index_spec initialize_c_style
handle_update_tracks_example =
    handle_update_tracks sample (buy 1 100 10) (opening sample) (initialize_c_style sample) 0 0
      session-IsUpdate.0 (omega arith) (omega arith)
      ((initialize-Tracks sample).instruments 3 (omega arith)) (initialize-Tracks sample).sum

-- What the consumer is given, the latest first.
abbrev results_of : Outcome (Context sample) (Unit {0}) → List (ℤ × sample.doubles.Double)
results_of (done a c) = c.results
results_of spins = []
results_of fault = []

abbrev run_session : List (ℤ × sample.doubles.Double)
run_session = results_of (process sample session (initialize_c_style sample))

-- The same pass, at its turn.
abbrev first_pass :
    (c' : Context sample) × Handled sample
      (buy 1 100 10)
      (opening sample)
      (initialize_c_style sample)
      0
      0
      c'
unfolding prev_index prev_index_spec initialize_c_style
first_pass =
    handle_update_tracks sample (buy 1 100 10) (opening sample) (initialize_c_style sample) 0 0
      session-IsUpdate.0 (omega arith) (omega arith)
      ((initialize-Tracks sample).instruments 3 (omega arith)) (initialize-Tracks sample).sum

handle_update_in_turn_example :
    ((ltb 3 instrument_count && (ltb 0 history_size && ltb 0 specific_history_size)) ≡ true)
    × (sample.sync.is_set ((initialize_c_style sample).order (prev_index 0)) ≡ true)
    × (sample.sync.is_set ((initialize_c_style sample).order_sum (prev_index 0)) ≡ true)
handle_update_in_turn_example =
    handle_update_in_turn sample (placed (buy 1 100 10) 0 0) (initialize_c_style sample)
      first_pass.0 first_pass.1.ends

abbrev first_world : World sample
first_world = record {
  context = initialize_c_style sample;
  sent = 1;
  taken = 1;
  inserted = 0;
  summed = 0;
}

worker_alone_example :
    (c' : Context sample) × Steps sample testing
      (record first_world { context = c'; inserted = 1; summed = 1 })
      (clearing_next 0 (placed (buy 1 100 10) 0 0))
      first_world
    × TracksInstrument sample (trade sample (buy 1 100 10) (opening sample)) c' 3 0
    × TracksSum sample (trade sample (buy 1 100 10) (opening sample)) c' 0
    × Frame sample 3 0 0 (initialize_c_style sample) c'
unfolding prev_index prev_index_spec initialize_c_style
worker_alone_example =
    worker_alone sample (buy 1 100 10) (opening sample) 0 0 0 first_world session-IsUpdate.0
      (omega arith) (omega arith) ((initialize-Tracks sample).instruments 3 (omega arith))
      (initialize-Tracks sample).sum
