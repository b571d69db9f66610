-- ===== src/Tests/Results.antt =====
-- A schedule of the producer and the two workers (worker.cc, worker.h, table.h) for updates of two
-- instruments by turns, on the sample platform.
use rsj.Prelude.{
  ℕ, zero, suc, ◌+◌, ◌≤◌, ◌≡◌, ◌⊎◌, refl, false, List, [], ◌∷◌, ◌++◌, none, some, arith,
}
use mathlib.Core.List.{Perm}
use rsj.Prelude.Int.{pos, negsuc}
use rsj.Platform.Sample.{sample}
use rsj.Sync.Atomic.{atomic_sync, sync_set_int}
use rsj.Helpers.{prev_index, next_index, prev_index_spec}
use rsj.Table.{asks_update, bids_update}
use rsj.Worker.{copy_ask, copy_bid, ratio, compute_fp_i}
use rsj.Init.{initialize_c_style}
use rsj.Producer.{Update, placed, update_c_style}
use rsj.Refinement.{IsUpdate}
use rsj.Threads.Defs.{
  Threads, Reach, here, reading, polling, stops, destructor_c_style, begin, produce, advance,
}
use rsj.Threads.Lags.{Alternates}
use rsj.Threads.Verdicts.{ReadsBest}
use rsj.Threads.Totals.{market_after}
use rsj.Threads.Told.{pending_sum, early}
use rsj.Threads.Sums.{Sums}
use rsj.Threads.Results.{results_told, reads_own, results_at_rest, all_answered, stage_of}
use rsj.Threads.Running.{IsRunning, Works, left_works}
use rsj.Threads.Drains.{Drained}
use rsj.Threads.Bound.{load, Run, no_step, one_more, workers_finish}
use rsj.Threads.Stops.{unmoved, moved, stop_unseen}
use rsj.Threads.Schedule.{Turn, producer, left_worker, right_worker, play, play_all, play_all-Reach}
use rsj.Tests.Threads.{times, whole}

abbrev offer : ℕ → ℕ → ℕ → ℕ → ℕ → Update
offer n instrument price volume side = record {
  seq_num = pos n;
  instrument = instrument;
  price = pos price;
  volume = pos volume;
  side = pos side;
}

-- An ask of one instrument, one of the other, a bid of each, and again.
abbrev feed : ℕ → Update
feed zero = offer 1 3 105 20 1
feed (suc zero) = offer 2 5 107 30 1
feed (suc (suc zero)) = offer 3 3 100 10 0
feed (suc (suc (suc zero))) = offer 4 5 101 15 0
feed (suc (suc (suc (suc n)))) = feed n

feed-IsUpdate : (n : ℕ) → IsUpdate (feed n)
feed-IsUpdate zero = ground arith
feed-IsUpdate (suc zero) = ground arith
feed-IsUpdate (suc (suc zero)) = ground arith
feed-IsUpdate (suc (suc (suc zero))) = ground arith
feed-IsUpdate (suc (suc (suc (suc n)))) = feed-IsUpdate n

feed-Alternates : Alternates feed
feed-Alternates zero e = omega (arith, e)
feed-Alternates (suc zero) e = omega (arith, e)
feed-Alternates (suc (suc zero)) e = omega (arith, e)
feed-Alternates (suc (suc (suc zero))) e = omega (arith, e)
feed-Alternates (suc (suc (suc (suc n)))) e = feed-Alternates n e

-- The right worker inserts its ask while the left has not copied the other history, up to the read.
abbrev overtaking : List Turn
overtaking = producer ∷ times 8 left_worker ++ producer ∷ times 9 right_worker

-- It tells its result before the left worker does; both finish, and handle a bid each.
abbrev both_rest : List Turn
both_rest =
    producer ∷ times 8 left_worker
    ++ producer ∷ times 11 right_worker
    ++ times 7 left_worker
    ++ times 4 right_worker
    ++ producer ∷ times 8 left_worker
    ++ producer ∷ times 10 right_worker
    ++ times 6 left_worker
    ++ times 4 right_worker

abbrev played : List Turn → Threads sample feed
played xs = elim (play_all sample feed xs (begin sample feed)) [
  | none ↦ begin sample feed
  | some t ↦ t
]

rest_results :
    whole (played both_rest).world.context.results
    ≡ (pos 4, negsuc 354540647817873483)
      ∷ (pos 3, negsuc 236360431878581539)
      ∷ (pos 1, pos 0)
      ∷ (pos 2, pos 0)
      ∷ []
unfolding play_all play produce update_c_style sample initialize_c_style advance atomic_sync
    prev_index next_index prev_index_spec asks_update bids_update copy_ask copy_bid sync_set_int
    ratio compute_fp_i
rest_results = refl

rest-Reach : Reach sample feed (played both_rest)
unfolding play_all play produce update_c_style sample initialize_c_style advance atomic_sync
    prev_index next_index prev_index_spec asks_update bids_update copy_ask copy_bid sync_set_int
    ratio compute_fp_i
rest-Reach = play_all-Reach sample feed both_rest (begin sample feed) (played both_rest) here refl

overtaking-Reach : Reach sample feed (played overtaking)
unfolding play_all play produce update_c_style sample initialize_c_style advance atomic_sync
    prev_index next_index prev_index_spec asks_update bids_update copy_ask copy_bid sync_set_int
    ratio compute_fp_i
overtaking-Reach =
    play_all-Reach sample feed overtaking (begin sample feed) (played overtaking) here refl

overtaking-IsRunning : IsRunning sample (played overtaking).world.context
unfolding play_all play produce update_c_style sample initialize_c_style advance atomic_sync
    prev_index next_index prev_index_spec asks_update bids_update copy_ask copy_bid sync_set_int
    ratio compute_fp_i
overtaking-IsRunning = refl

-- The right worker at its read.
at_reading :
    stage_of sample feed feed-Alternates feed-IsUpdate (played overtaking) false
    ≡ reading 1 (placed (feed 1) 1 0)
unfolding play_all play produce update_c_style sample initialize_c_style advance atomic_sync
    prev_index next_index prev_index_spec asks_update bids_update copy_ask copy_bid sync_set_int
    ratio compute_fp_i
at_reading = refl

results_told_example :
    let t = played overtaking in
    Sums sample feed (t.world.summed + pending_sum t.left + pending_sum t.right) t.world.context
    × Perm t.world.context.results (
        early sample t.left
        ++ (early sample t.right
            ++ (market_after sample feed
                (t.world.summed + pending_sum t.left + pending_sum t.right)).results))
results_told_example =
    results_told sample feed feed-Alternates feed-IsUpdate (played overtaking) overtaking-Reach

reads_own_example : ReadsBest sample feed 1 (placed (feed 1) 1 0) (played overtaking).world.context
reads_own_example =
    reads_own sample feed feed-Alternates feed-IsUpdate (played overtaking) false 1
      (placed (feed 1) 1 0) overtaking-Reach at_reading

results_at_rest_example :
    Perm
      (played both_rest).world.context.results
      (market_after sample feed (played both_rest).world.sent).results
unfolding play_all play produce update_c_style sample initialize_c_style advance atomic_sync
    prev_index next_index prev_index_spec asks_update bids_update copy_ask copy_bid sync_set_int
    ratio compute_fp_i
results_at_rest_example =
    results_at_rest sample feed feed-Alternates feed-IsUpdate (played both_rest) rest-Reach refl
      refl refl

-- A step of the left worker after that.
abbrev one_later : Threads sample feed
one_later = played (overtaking ++ left_worker ∷ [])

one_later-Run : Run sample feed (played overtaking) 1 one_later
unfolding play_all play produce update_c_style sample initialize_c_style advance atomic_sync
    prev_index next_index prev_index_spec asks_update bids_update copy_ask copy_bid sync_set_int
    ratio compute_fp_i
one_later-Run = one_more no_step (left_works refl)

workers_finish_example :
    (1 ≤ load sample feed (played overtaking))
    × (((x : Threads sample feed) × Works sample feed one_later x)
        ⊎ Drained sample feed feed-IsUpdate (played overtaking) one_later)
workers_finish_example =
    workers_finish sample feed feed-IsUpdate 1 (played overtaking) one_later overtaking-Reach
      overtaking-IsRunning one_later-Run

all_answered_example :
    (1 ≤ load sample feed (played overtaking))
    × (((x : Threads sample feed) × Works sample feed one_later x)
        ⊎ Perm one_later.world.context.results
            (market_after sample feed (played overtaking).world.sent).results)
all_answered_example =
    all_answered sample feed feed-Alternates feed-IsUpdate 1 (played overtaking) one_later
      overtaking-Reach overtaking-IsRunning one_later-Run

-- Both workers have come to the dequeue.
abbrev starved : Threads sample feed
starved = played (left_worker ∷ right_worker ∷ [])

-- The destructor has reset `running`.
abbrev stopped : Threads sample feed
stopped = record starved {
  world = record starved.world { context = record starved.world.context { running = pos 0 } };
}

stop_unseen_example : (stopped.left ≡ polling) × (stopped.right ≡ polling)
unfolding play_all play initialize_c_style advance destructor_c_style sample
stop_unseen_example =
    stop_unseen sample feed starved stopped (record { left = refl; right = refl; empty = refl })
      (moved unmoved (stops refl) refl)
