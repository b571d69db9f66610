-- ===== src/Tests/Driver.antt =====
-- A file of two rows for the driver (main.cc), the last of them not marked, or marked.
use rsj.Prelude.{ℕ, ◌≡◌, some, none, List, map, [], ◌∷◌, refl, arith, if◌then◌else◌}
use rsj.Prelude.Int.{ℤ, pos}
use rsj.Driver.{RsjData, load_rows, copy_row, tester_load_csv_file, update_of, do_test}
use rsj.Driver.Load.{until_last, has_last, claimed, tester_load_csv_file_lem, do_test_loaded}

-- The doubles are not read: natural numbers stand for them.
abbrev row : ℤ → RsjData ℕ
row n = record {
  seq_num = n;
  instrument = 3;
  price = pos 100;
  volume = pos 5;
  side = pos 0;
  vol_bid_i = pos 5;
  price_bid_i = pos 100;
  vol_ask_i = pos 0;
  price_ask_i = pos 0;
  equity_i = 0;
  f_i = 0;
  g_i = 0;
  fp_i = 0;
  fp_global_i = 0;
}

abbrev unmarked : List (RsjData ℕ)
unmarked = row (pos 1) ∷ row (pos 2) ∷ []

abbrev marked : List (RsjData ℕ)
marked = row (pos 1) ∷ row (pos 1001) ∷ row (pos 2) ∷ []

-- Three rows are said to be loaded, where there are two.
unmarked_count : tester_load_csv_file unmarked ≡ some (unmarked, 3)
unfolding tester_load_csv_file load_rows copy_row
unmarked_count = refl

marked_calls :
    do_test (row (pos 1) ∷ row (pos 1001) ∷ []) 2
    ≡ some (map update_of (row (pos 1) ∷ row (pos 1001) ∷ []))
unfolding do_test
marked_calls = refl

tester_load_csv_file_lem_example :
    tester_load_csv_file marked ≡ some (until_last marked, claimed marked)
tester_load_csv_file_lem_example = tester_load_csv_file_lem marked (omega arith)

do_test_loaded_example :
    (loaded : List (RsjData ℕ)) × (data_count : ℕ) × (tester_load_csv_file unmarked
      ≡ some (loaded, data_count))
    × (do_test loaded data_count
        ≡ (if has_last unmarked then some (map update_of (until_last unmarked)) else none))
do_test_loaded_example = do_test_loaded unmarked (omega arith)
