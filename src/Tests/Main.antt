-- ===== src/Tests/Main.antt =====
-- A file for `main` (main.cc) of two instruments by turns, on the sample platform.
use rsj.Prelude.{ℕ, zero, suc, ◌≡◌, ◌≤◌, ◌⊎◌, refl, none, some, List, [], ◌∷◌, arith}
use mathlib.Core.List.{Perm}
use rsj.Prelude.Int.{ℤ, pos}
use rsj.Platform.Sample.{sample}
use rsj.Init.{initialize_c_style}
use rsj.Producer.{Update, update_c_style}
use rsj.Market.{opening}
use rsj.Refinement.{IsUpdate}
use rsj.Refinement.Run.{trade_all}
use rsj.Driver.{RsjData, update_of}
use rsj.Driver.Main.{main, calls_of, main_answered}
use rsj.Threads.Defs.{Threads, Reach, here, begin, produce, advance}
use rsj.Threads.Running.{left_works}
use rsj.Threads.Drains.{Drained}
use rsj.Threads.Session.{
  Session, Acts, at_first, acted, calls, works, session_load, program_finishes,
}
use rsj.Threads.Schedule.{producer, left_worker, play, play_all}
use rsj.Threads.Lags.{Alternates}

abbrev row : ℤ → ℕ → ℕ → ℕ → RsjData sample.doubles.Double
row n instrument price side = record {
  seq_num = n;
  instrument = instrument;
  price = pos price;
  volume = pos 5;
  side = pos side;
  vol_bid_i = pos 0;
  price_bid_i = pos 0;
  vol_ask_i = pos 0;
  price_ask_i = pos 0;
  equity_i = sample.doubles.decimal 0 0;
  f_i = sample.doubles.decimal 0 0;
  g_i = sample.doubles.decimal 0 0;
  fp_i = sample.doubles.decimal 0 0;
  fp_global_i = sample.doubles.decimal 0 0;
}

-- The third row is marked as the last; the fourth is not loaded.
abbrev file : List (RsjData sample.doubles.Double)
file = row (pos 1) 3 105 1 ∷ row (pos 2) 5 90 0 ∷ row (pos 1001) 3 100 0 ∷ row (pos 4) 5 91 1 ∷ []

abbrev replayed : ℕ → Update
replayed zero = update_of (row (pos 1) 3 105 1)
replayed (suc zero) = update_of (row (pos 2) 5 90 0)
replayed (suc (suc zero)) = update_of (row (pos 1001) 3 100 0)
replayed (suc (suc (suc zero))) = update_of (row (pos 4) 5 91 1)
replayed (suc (suc (suc (suc n)))) = replayed n

replayed-IsUpdate : (n : ℕ) → IsUpdate (replayed n)
unfolding update_of
replayed-IsUpdate zero = ground arith
replayed-IsUpdate (suc zero) = ground arith
replayed-IsUpdate (suc (suc zero)) = ground arith
replayed-IsUpdate (suc (suc (suc zero))) = ground arith
replayed-IsUpdate (suc (suc (suc (suc n)))) = replayed-IsUpdate n

replayed-Alternates : Alternates replayed
unfolding update_of
replayed-Alternates zero e = omega (arith, e)
replayed-Alternates (suc zero) e = omega (arith, e)
replayed-Alternates (suc (suc zero)) e = omega (arith, e)
replayed-Alternates (suc (suc (suc zero))) e = omega (arith, e)
replayed-Alternates (suc (suc (suc (suc n)))) e = replayed-Alternates n e

-- The first call, and the left worker's test of `running`.
abbrev begun : Threads sample replayed
begun = elim (play_all sample replayed (producer ∷ left_worker ∷ []) (begin sample replayed)) [
  | none ↦ begin sample replayed
  | some t ↦ t
]

begun-Session : Session sample replayed 3 (begin sample replayed) 2 begun
unfolding play_all play produce update_c_style sample initialize_c_style advance update_of
begun-Session = acted (acted at_first (calls (omega arith) refl)) (works (left_works refl))

main_answered_example :
    (main sample file ≡ some (initialize_c_style sample, calls_of sample file))
    × (2 ≤ 50)
    × (((x : Threads sample replayed) × Acts sample replayed 3 begun x)
        ⊎ Perm begun.world.context.results
            (trade_all sample (calls_of sample file) (opening sample)).results)
main_answered_example =
    main_answered sample replayed replayed-IsUpdate replayed-Alternates file 2 begun (omega arith)
      refl (refl, (refl, (refl, tt))) begun-Session

program_finishes_example :
    Reach sample replayed begun
    × (2 ≤ session_load sample replayed 3 (begin sample replayed))
    × (((x : Threads sample replayed) × Acts sample replayed 3 begun x)
        ⊎ ((begun.world.sent ≡ 3) × Drained sample replayed replayed-IsUpdate begun begun))
unfolding initialize_c_style
program_finishes_example =
    program_finishes sample replayed replayed-IsUpdate 3 2 (begin sample replayed) begun here refl
      (omega arith) begun-Session
