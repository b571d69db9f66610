-- ===== src/Init.antt =====
-- init.cc: `initialize_c_style`, the state in which the workers start.
use rsj.Prelude.{ℕ, ◌-◌, [], ◌==◌, if◌then◌else◌}
use rsj.Prelude.Int.{pos}
use rsj.Structures.{LookupBid, LookupAsk, history_size, buffer_size}
use rsj.OrderBook.{int_max}
use rsj.Table.{pair_of}
use rsj.Platform.{Platform}
use rsj.Context.{Context}

module _ (P : Platform) where
  open P.rb use {Table, rb_create}

  unfoldable pub initial_bid : LookupBid Table
  initial_bid = record {
    vol_bid = pos 0;
    price_bid = pos 0;
    tree = rb_create;
    history = λ j. pair_of (pos 0) (pos 0);
  }

  unfoldable pub initial_ask : LookupAsk Table
  initial_ask = record {
    vol_ask = pos 0;
    price_ask = pos int_max;
    tree = rb_create;
    history = λ j. pos 0;
  }

  -- Every flag is left unset but the last.
  unfoldable pub initial_flag : ℕ → P.sync.Flag
  initial_flag i = if i == (history_size - 1) then P.sync.initial_last else P.sync.initial

  -- What the loops set at every index is a constant array; memory that nothing sets (an index past
  -- the end) is never read.
  unfoldable pub initialize_c_style : Context P
  unfolding initial_bid initial_ask initial_flag
  initialize_c_style = record {
    running = pos 1;
    global_id = pos 0;
    bids = λ i. initial_bid;
    asks = λ i. initial_ask;
    order_index = 0;
    order_indices_bid = λ i. 0;
    order = initial_flag;
    order_sum = initial_flag;
    sum_history = λ i. P.doubles.decimal 0 0;
    fp_i_history = λ i j. P.doubles.decimal 0 0;
    buffer = P.ring.ck_ring_init buffer_size;
    results = [];
  }
