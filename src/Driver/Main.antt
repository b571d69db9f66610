-- ===== src/Driver/Main.antt =====
-- main.cc: `main`, from the file to the results that the consumer is told, by the producer and the two
-- workers of Threads in any order.
use rsj.Prelude.{
  ℕ, suc, ◌+◌, ◌*◌, ◌⊎◌, inl, inr, ◌≤◌, ◌≡◌, refl, sym, ◌∙◌, ap, true, Option, none, some, List, [],
  ◌∷◌, map, length, arith,
}
use mathlib.Core.List.{Perm}
use rsj.Platform.{Platform}
use rsj.Context.{Context}
use rsj.Init.{initialize_c_style}
use rsj.Producer.{Update}
use rsj.Market.{opening}
use rsj.Refinement.{IsUpdate}
use rsj.Refinement.Run.{trade_all}
use rsj.Driver.{RsjData, tester_load_csv_file, update_of, do_test, testing_count}
use rsj.Driver.Load.{until_last, has_last, do_test_loaded}
use rsj.Threads.Defs.{Threads, here, begin}
use rsj.Threads.Lags.{Alternates}
use rsj.Threads.Totals.{market_after}
use rsj.Threads.Session.{Session, Acts, program_finishes}
use rsj.Threads.Results.{results_at_rest}

module _ (P : Platform) where
  open P.doubles use {Double}

  -- The state in which `Initialize` returns, and the calls of `Update` that follow, in order; `none`
  -- where the loader or the replay goes out of the array. What `main` then waits for is left out.
  unfoldable pub main : List (RsjData Double) → Option (Context P × List Update)
  main rows = elim (tester_load_csv_file rows) [
    | none ↦ none
    | some (loaded, data_count) ↦ elim (do_test loaded data_count) [
      | none ↦ none
      | some calls ↦ some (initialize_c_style P, calls)
    ]
  ]

  -- The rows up to the first that is marked as the last, as arguments of `Update`.
  abbrev pub calls_of : List (RsjData Double) → List Update
  calls_of rows = map update_of (until_last rows)

  module _ (feed : ℕ → Update) where
    -- From the k-th on, the updates of `feed` are those of the list, as far as it goes.
    abbrev pub Begins : ℕ → List Update → Type 0
    Begins k [] = Unit
    Begins k (u ∷ us) = (feed k ≡ u) × Begins (suc k) us

    market_of_begin :
        (k : ℕ) (us : List Update)
        → Begins k us
        → trade_all P us (market_after P feed k) ≡ market_after P feed (k + length us)
    unfolding trade_all market_after
    market_of_begin k [] b = ap (market_after P feed) (omega arith)
    market_of_begin k (u ∷ us) (e, b) =
        rw (sym e) (market_of_begin (suc k) us b ∙ ap (market_after P feed) (omega arith))

    -- A file that fits the array and has a row that is marked as the last, with updates within the bounds
    -- of which no two neighbours are of the same instrument: `main` calls `Update` with the rows up
    -- to that one, after `Initialize`. In whatever order these calls and the two workers move from
    -- there, they make at most 16 steps for each call and 2; and after any of these steps one of
    -- them has a step, or the consumer was told the market's results of these rows, in some order,
    -- each once.
    pub main_answered :
        (v : (n : ℕ) → IsUpdate (feed n)) (alternates : Alternates feed)
        (rows : List (RsjData Double)) (n : ℕ) (u : Threads P feed)
        → length rows ≤ testing_count
        → has_last rows ≡ true
        → Begins 0 (calls_of rows)
        → Session P feed (length (calls_of rows)) (begin P feed) n u
        → (main rows ≡ some (initialize_c_style P, calls_of rows))
          × (n ≤ 16 * length (calls_of rows) + 2)
          × (((x : Threads P feed) × Acts P feed (length (calls_of rows)) u x)
              ⊎ Perm u.world.context.results (trade_all P (calls_of rows) (opening P)).results)
    unfolding main market_after initialize_c_style
    main_answered v alternates rows n u fits last b s =
        let (loaded, data_count, fills, replays) = do_test_loaded rows fits in
        let replayed : do_test loaded data_count ≡ some (calls_of rows) = replays ∙ rw last refl in
        let market : trade_all P (calls_of rows) (opening P)
            ≡ market_after P feed (length (calls_of rows)) =
          market_of_begin 0 (calls_of rows) b ∙ ap (market_after P feed) (omega arith) in
        let (r, bound, end) =
          program_finishes P feed v (length (calls_of rows)) n (begin P feed) u here refl
            (omega arith) s in
        let no_queue = ap length (P.ring.contents-init 2) in
        (
          rw (fills, main) (rw replayed refl),
          omega (arith, bound, no_queue),
          elim end [
            | inl more ↦ inl more
            | inr (sent, k) ↦ inr (
                rw market
                  (rw sent at (results_at_rest P feed alternates v u r k.left k.right k.empty)))
          ],
        )
