-- ===== src/Tests/Threads.antt =====
-- Schedules of the producer and the two workers (worker.cc, worker.h, table.h) on the sample platform.
use rsj.Prelude.{ℕ, zero, suc, ◌≡◌, ◌≢◌, refl, List, [], ◌+◌, ◌∷◌, ◌++◌, none, some, arith}
use rsj.Prelude.Int.{ℤ, pos, negsuc}
use rsj.Platform.Sample.{sample}
use rsj.Sync.Atomic.{atomic_sync, sync_set_int}
use rsj.Helpers.{prev_index, next_index}
use rsj.Table.{asks_update}
use rsj.Worker.{copy_bid, ratio, compute_fp_i}
use rsj.Init.{initialize_c_style}
use rsj.Producer.{Update, update_c_style}
use rsj.OrderBook.{best_ask, best_bid, lowest, highest, set_level, put_level, remove_level}
use rsj.Market.{opening, trade}
use rsj.Refinement.{IsUpdate}
use rsj.Refinement.Run.{trade_all}
use rsj.Threads.Defs.{Threads, Reach, here, begin, produce, advance}
use rsj.Threads.Runs.{Projected, Reach-Projected}
use rsj.Threads.Books.{HoldsBooks}
use rsj.Threads.Frame.{pending}
use rsj.Threads.Order.{books_after}
use rsj.Threads.Safety.{books_in_order, books_at_rest}
use rsj.Context.{fault}
use rsj.Threads.Faults.{no_fault}
use rsj.Threads.Schedule.{Turn, producer, left_worker, right_worker, play, play_all, play_all-Reach}

abbrev offer : ℤ → ℕ → ℕ → ℕ → Update
offer n price volume side = record {
  seq_num = n;
  instrument = 3;
  price = pos price;
  volume = pos volume;
  side = pos side;
}

-- An ask, a bid, and then worse asks for ever.
abbrev feed : ℕ → Update
feed zero = offer (pos 1) 105 20 1
feed (suc zero) = offer (pos 2) 100 10 0
feed (suc (suc n)) = offer (pos 3) 110 5 1

feed-IsUpdate : (n : ℕ) → IsUpdate (feed n)
feed-IsUpdate zero = ground arith
feed-IsUpdate (suc zero) = ground arith
feed-IsUpdate (suc (suc n)) = ground arith

abbrev pub times : ℕ → Turn → List Turn
times zero x = []
times (suc n) x = x ∷ times n x

-- The left worker handles the ask, and inserts the bid up to the copy of the other side's history; the
-- right worker then inserts the worse ask and gives its result.
abbrev race : List Turn
race =
    producer ∷ times 15 left_worker
    ++ producer ∷ times 8 left_worker
    ++ producer ∷ times 11 right_worker

abbrev played : List Turn → Threads sample feed
played xs = elim (play_all sample feed xs (begin sample feed)) [
  | none ↦ begin sample feed
  | some t ↦ t
]

abbrev pub whole : List (ℤ × sample.doubles.Double) → List (ℤ × ℤ)
unfolding sample
whole rs = rs

-- The ask is taken for missing, and its result comes before that of the bid; the market gives both
-- another one.
raced : whole (played race).world.context.results ≡ (pos 3, pos 0) ∷ (pos 1, pos 0) ∷ []
unfolding play_all play produce update_c_style sample initialize_c_style advance atomic_sync
    prev_index next_index asks_update copy_bid sync_set_int
raced = refl

market_differs :
    whole (trade_all sample (feed 0 ∷ feed 1 ∷ feed 2 ∷ []) (opening sample)).results
    ≡ (pos 3, negsuc 236360431878581539) ∷ (pos 2, negsuc 236360431878581539) ∷ (pos 1, pos 0) ∷ []
unfolding sample trade_all trade best_ask lowest set_level put_level remove_level opening best_bid
    highest ratio compute_fp_i
market_differs = refl

race-Reach : Reach sample feed (played race)
unfolding play_all play produce update_c_style sample initialize_c_style advance atomic_sync
    prev_index next_index asks_update copy_bid sync_set_int
race-Reach = play_all-Reach sample feed race (begin sample feed) (played race) here refl

-- The left worker handles the ask, and rests.
abbrev one_pass : List Turn
one_pass = producer ∷ times 15 left_worker

one_pass-Reach : Reach sample feed (played one_pass)
unfolding play_all play produce update_c_style sample initialize_c_style advance atomic_sync
    prev_index next_index asks_update copy_bid sync_set_int
one_pass-Reach = play_all-Reach sample feed one_pass (begin sample feed) (played one_pass) here refl

Reach-Projected_example : Projected sample feed (played race)
Reach-Projected_example = Reach-Projected sample feed (played race) race-Reach

books_in_order_example :
    HoldsBooks sample
      (books_after sample feed
        ((played race).world.inserted + pending (played race).left + pending (played race).right))
      (played race).world.context
books_in_order_example = books_in_order sample feed (played race) feed-IsUpdate race-Reach

books_at_rest_example :
    HoldsBooks sample
      (books_after sample feed (played one_pass).world.sent)
      (played one_pass).world.context
unfolding play_all play produce update_c_style sample initialize_c_style advance atomic_sync
    prev_index next_index asks_update copy_bid sync_set_int
books_at_rest_example =
    books_at_rest sample feed (played one_pass) feed-IsUpdate one_pass-Reach refl refl refl

no_fault_example :
    (produce sample feed (played race).world ≢ fault)
    × (advance sample (played race).left (played race).world ≢ fault)
    × (advance sample (played race).right (played race).world ≢ fault)
no_fault_example = no_fault sample feed feed-IsUpdate (played race) race-Reach
