-- ===== src/Driver.antt =====
-- main.cc: the test driver, which loads rows of a file and replays them through `Update`. `fopen` and
-- `fscanf` are not part of the repository: the rows are those that `fscanf` reads in full, up to the
-- first that it does not.
pub mod Load
pub mod Main
use rsj.Prelude.{
  ℕ, zero, suc, ◌+◌, Bool, Option, none, some, List, [], ◌∷◌, ◌++◌, ltb, if◌then◌else◌,
}
use rsj.Prelude.Int.{ℤ, pos, eqb_ℤ}
use rsj.Producer.{Update}

abbrev pub testing_count : ℕ
testing_count = 6000002

-- `struct rsj_data`, over the type of doubles.
pub record RsjData (Double : Type 0) : Type 0 where
  pub seq_num : ℤ
  pub instrument : ℕ
  pub price : ℤ
  pub volume : ℤ
  pub side : ℤ
  pub vol_bid_i : ℤ
  pub price_bid_i : ℤ
  pub vol_ask_i : ℤ
  pub price_ask_i : ℤ
  pub equity_i : Double
  pub f_i : Double
  pub g_i : Double
  pub fp_i : Double
  pub fp_global_i : Double

module _ {Double : Type 0} where
  -- The row that is allocated for `tmp_data`, field by field.
  unfoldable pub copy_row : RsjData Double → RsjData Double
  copy_row tmp = record {
    seq_num = tmp.seq_num;
    instrument = tmp.instrument;
    price = tmp.price;
    volume = tmp.volume;
    side = tmp.side;
    vol_bid_i = tmp.vol_bid_i;
    vol_ask_i = tmp.vol_ask_i;
    price_ask_i = tmp.price_ask_i;
    price_bid_i = tmp.price_bid_i;
    equity_i = tmp.equity_i;
    f_i = tmp.f_i;
    fp_i = tmp.fp_i;
    g_i = tmp.g_i;
    fp_global_i = tmp.fp_global_i;
  }

  abbrev pub is_last : RsjData Double → Bool
  is_last r = eqb_ℤ r.seq_num (pos 1001)

  -- The loop: the rows stored so far, in order, and `i`. A store past the end of the array that was
  -- allocated is undefined (`none`).
  unfoldable pub load_rows :
      List (RsjData Double) → List (RsjData Double) → ℕ → Option (List (RsjData Double) × ℕ)
  load_rows [] stored i = some (stored, i)
  load_rows (r ∷ rows) stored i =
      let stored' = stored ++ copy_row r ∷ [] in
      let rest = load_rows rows stored' (i + 1) in
      if ltb i testing_count then (if is_last r then some (stored', i) else rest) else none

  -- The rows and `*data_count`, which is `++i`.
  unfoldable pub tester_load_csv_file : List (RsjData Double) → Option (List (RsjData Double) × ℕ)
  tester_load_csv_file rows = elim (load_rows rows [] 0) [
    | none ↦ none
    | some (stored, i) ↦ some (stored, i + 1)
  ]

  -- The arguments of `Update` for a row.
  unfoldable pub update_of : RsjData Double → Update
  update_of r = record {
    seq_num = r.seq_num;
    instrument = r.instrument;
    price = r.price;
    volume = r.volume;
    side = r.side;
  }

  -- The calls of `Update`, for the entries of the array from the front; `none` where the loop reads an
  -- entry that was never stored.
  unfoldable pub do_test : List (RsjData Double) → ℕ → Option (List Update)
  do_test stored zero = some []
  do_test [] (suc count) = none
  do_test (r ∷ stored) (suc count) = elim (do_test stored count) [
    | none ↦ none
    | some calls ↦ some (update_of r ∷ calls)
  ]
