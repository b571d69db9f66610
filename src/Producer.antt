-- ===== src/Producer.antt =====
-- worker.h: `update_c_style`, called by `IUpdateProcessor::Update` (iupdateprocessor.cc): it numbers
-- an update and hands it to the workers.
use rsj.Prelude.{ℕ, ◌+◌, ◌%◌, ◌^◌, none, some, ltb, write}
use rsj.Prelude.Int.{ℤ}
use rsj.Structures.{RsjDataIn, instrument_count, history_size, specific_history_size}
use rsj.Platform.{Platform}
use rsj.Context.{Context, Outcome, done, spins, ◌>>=◌, ◌>>◌, get, modify, defined}

-- The arguments of `Update`.
pub record Update : Type 0 where
  pub seq_num : ℤ
  pub instrument : ℕ
  pub price : ℤ
  pub volume : ℤ
  pub side : ℤ

-- An update with its places in the order of all updates and in that of its instrument.
abbrev pub placed : Update → ℕ → ℕ → RsjDataIn
placed u order specific = record {
  seq_num = u.seq_num;
  instrument = u.instrument;
  price = u.price;
  volume = u.volume;
  side = u.side;
  order_index = order;
  specific_index = specific;
}

module _ (P : Platform) where
  -- The update with the places that the two counters give it.
  unfoldable pub numbered : Update → Context P → RsjDataIn
  numbered u c =
      placed u (c.order_index % history_size)
        (c.order_indices_bid u.instrument % specific_history_size)

  -- The loop around `ck_ring_enqueue_spmc` waits while the ring is full.
  unfoldable pub enqueue : RsjDataIn → Context P → Outcome (Context P) (Unit {0})
  enqueue d c = elim (P.ring.enqueue_spmc c.buffer d) [
    | none ↦ spins
    | some r ↦ done tt (record c { buffer = r })
  ]

  -- The counters are `unsigned int`.
  unfoldable pub update_c_style : Update → Context P → Outcome (Context P) (Unit {0})
  unfolding numbered enqueue
  update_c_style u = do
    defined (ltb u.instrument instrument_count)
    c ← get
    modify (λ c. record c {
      order_index = (c.order_index + 1) % 2 ^ 32;
      order_indices_bid =
          write c.order_indices_bid u.instrument ((c.order_indices_bid u.instrument + 1) % 2 ^ 32);
    })
    enqueue (numbered u c)
