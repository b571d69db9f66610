-- ===== src/Driver/Load.antt =====
-- How many rows the driver loads, how many it says it has loaded, and what it replays.
use rsj.Prelude.{
  ℕ, suc, ◌+◌, ◌≤◌, ◌≡◌, refl, ◌∙◌, ap, Bool, false, ◌||◌, none, some, List, [], ◌∷◌, ◌++◌,
  append_assoc, append-nil, map, length, arith, if◌then◌else◌, Bool-cases, inl, inr, ltb_of_lt,
}
use rsj.Driver.{
  RsjData, copy_row, is_last, load_rows, tester_load_csv_file, update_of, do_test, testing_count,
}

module _ {Double : Type 0} where
  -- The rows up to the first that is marked as the last, and whether there is one.
  abbrev pub until_last : List (RsjData Double) → List (RsjData Double)
  until_last [] = []
  until_last (r ∷ rows) = r ∷ (if is_last r then [] else until_last rows)

  abbrev pub has_last : List (RsjData Double) → Bool
  has_last [] = false
  has_last (r ∷ rows) = is_last r || has_last rows

  -- One more than the rows where none is marked.
  abbrev pub claimed : List (RsjData Double) → ℕ
  claimed rows = length (until_last rows) + (if has_last rows then 0 else 1)

  load_rows_lem :
      (rows stored : List (RsjData Double)) (i : ℕ)
      → length rows + i ≤ testing_count
      → (k : ℕ) × (load_rows rows stored i ≡ some (stored ++ until_last rows, k))
        × (k + 1 ≡ i + claimed rows)
  unfolding load_rows copy_row
  load_rows_lem [] stored i h = (i, rw append-nil, omega arith)
  load_rows_lem (r ∷ rows) stored i h = elim (Bool-cases (is_last r)) [
    | inl e ↦ (i, rw (ltb_of_lt i testing_count (omega arith), e), rw e (omega arith))
    | inr e ↦
        let (k, loaded, count) = load_rows_lem rows (stored ++ r ∷ []) (i + 1) (omega arith) in
        (
          k,
          rw (ltb_of_lt i testing_count (omega arith), e)
              (loaded ∙ ap (λ l. some (l, k)) (append_assoc stored (r ∷ []) (until_last rows))),
          rw e (omega (arith, count)),
        )
  ]

  -- A file that fits the array is loaded up to the first row marked as the last; `*data_count` is the
  -- number of the loaded rows where there is such a row, and one more where there is none.
  pub tester_load_csv_file_lem :
      (rows : List (RsjData Double))
      → length rows ≤ testing_count
      → tester_load_csv_file rows ≡ some (until_last rows, claimed rows)
  unfolding tester_load_csv_file
  tester_load_csv_file_lem rows h =
      let (k, loaded, count) = load_rows_lem rows [] 0 (omega arith) in
      rw (loaded, tester_load_csv_file) (ap (λ n. some (until_last rows, n)) (omega (arith, count)))

  do_test_all :
      (stored : List (RsjData Double))
      → do_test stored (length stored) ≡ some (map update_of stored)
  unfolding do_test
  do_test_all [] = refl
  do_test_all (r ∷ stored) = rw (do_test_all stored, do_test)

  do_test_more : (stored : List (RsjData Double)) → do_test stored (suc (length stored)) ≡ none
  unfolding do_test
  do_test_more [] = refl
  do_test_more (r ∷ stored) = rw (do_test_more stored, do_test)

  replayed :
      (rows : List (RsjData Double))
      → do_test (until_last rows) (claimed rows)
        ≡ (if has_last rows then some (map update_of (until_last rows)) else none)
  replayed rows = elim (Bool-cases (has_last rows)) [
    | inl e ↦ rw e (ap (do_test (until_last rows)) (omega arith) ∙ do_test_all (until_last rows))
    | inr e ↦ rw e (ap (do_test (until_last rows)) (omega arith) ∙ do_test_more (until_last rows))
  ]

  -- For a file that fits the array, the loader comes to an end, and the driver replays of what it gives
  -- exactly the rows up to the first that is marked as the last, in order, if there is one; if none
  -- is, it reads an entry of the array that was never stored.
  pub do_test_loaded :
      (rows : List (RsjData Double))
      → length rows ≤ testing_count
      → (loaded : List (RsjData Double)) × (data_count : ℕ) × (tester_load_csv_file rows
          ≡ some (loaded, data_count))
        × (do_test loaded data_count
            ≡ (if has_last rows then some (map update_of (until_last rows)) else none))
  do_test_loaded rows h =
      (until_last rows, claimed rows, tester_load_csv_file_lem rows h, replayed rows)
