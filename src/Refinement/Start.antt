-- ===== src/Refinement/Start.antt =====
-- The state that `initialize_c_style` leaves, and all that follows from it.
use rsj.Prelude.{◌≡◌, refl, List, All, arith}
use rsj.Helpers.{prev_index, prev_index_spec}
use rsj.RbTable.Agree.{create-Agrees}
use rsj.OrderBook.{level, best_bid, best_ask, highest, lowest}
use rsj.Platform.{Platform}
use rsj.Context.{Context, done}
use rsj.Producer.{Update}
use rsj.Init.{initialize_c_style}
use rsj.Market.{opening}
use rsj.Refinement.{IsUpdate, Tracks}
use rsj.Refinement.Run.{process, trade_all, process-Tracks}

module _ (P : Platform) where
  -- The initial state is that of the market before the first update.
  pub initialize-Tracks : Tracks P (opening P) (initialize_c_style P)
  unfolding initialize_c_style opening prev_index prev_index_spec level best_bid best_ask highest
      lowest
  initialize-Tracks = record {
    counter = omega arith;
    counters = λ i. omega arith;
    instruments = λ i lt. record {
      books = record {
        bid = record {
          agrees = create-Agrees P.rb;
          valid = λ y z q. absurd (cc);
          cached = refl;
          current = refl;
        };
        ask = record {
          agrees = create-Agrees P.rb;
          valid = λ y z q. absurd (cc);
          cached = refl;
          current = refl;
        };
      };
      fp = refl;
    };
    sum = record {
      order_set = P.sync.is_set-initial_last;
      order_sum_set = P.sync.is_set-initial_last;
      total = refl;
      results = refl;
    };
    empty = P.ring.contents-init 2;
    room = P.ring.capacity-init 2;
  }

  -- From the initial state, any sequence of updates within the bounds, each sent and handled in turn, is
  -- processed to the end (no loop waits for ever, no access is undefined, no sum of volumes
  -- overflows), and the consumer has been given the results of the market, in order.
  pub process_results :
      (us : List Update)
      → All IsUpdate us
      → (c' : Context P) × (process P us (initialize_c_style P) ≡ done tt c')
        × (c'.results ≡ (trade_all P us (opening P)).results)
  process_results us v =
      let (c', runs, t) =
        process-Tracks P us (opening P) (initialize_c_style P) v initialize-Tracks in
      (c', runs, t.sum.results)
