-- ===== src/Threads/Defs.antt =====
-- The steps of the producer and of the workers over `*global_context`. A step of a worker is one access
-- to a flag, to the ring or to `running`, one call of the consumer, or a run of accesses to the books
-- or to the sums; accesses are taken to be sequentially consistent.
use rsj.Prelude.{ℕ, ◌+◌, ◌≡◌, Option, none, some, ltb, ◌&&◌, write, if◌then◌else◌}
use rsj.Prelude.Int.{pos, eqb_ℤ, ◌+ℤ◌}
use rsj.Structures.{RsjDataIn, instrument_count, history_size, specific_history_size}
use rsj.Helpers.{prev_index, next_index}
use rsj.Table.{bids_update, asks_update}
use rsj.Platform.{Platform}
use rsj.Context.{Context, Outcome, done, spins, fault, ◌>>=◌, ◌>>◌, get, modify, defined}
use rsj.Worker.{
  M, side_buying, is_int, not_enough, wait_until_set_order, wait_until_set_order_sum,
  sync_set_order, sync_unset_order, sync_set_order_sum, sync_unset_order_sum, result, copy_ask,
  copy_bid, compute_fp_i, ratio, last_fp, store_fp, store_sum,
}
use rsj.Producer.{Update, update_c_style}
use rsj.Init.{initialize_c_style}

-- Where a worker stands in `worker_start`: what it does next, with its update and the number of the
-- update in the order of the ring. From `awaiting_sum` on, `some fp_i` is a worker in
-- compute_return_fp_i and `none` one in history_shift.
pub data Stage (Double : Type 0) : Type 0 where
  testing : Stage Double  -- while (running)
  polling : Stage Double  -- ck_ring_dequeue_spmc
  clearing_next : ℕ → RsjDataIn → Stage Double  -- sync_unset_order (next_index …)
  clearing_next_sum : ℕ → RsjDataIn → Stage Double  -- sync_unset_order_sum (next_index …)
  awaiting : ℕ → RsjDataIn → Stage Double  -- wait_until_set_order
  clearing_own : ℕ → RsjDataIn → Stage Double  -- sync_unset_order of its own place
  updating : ℕ → RsjDataIn → Stage Double  -- the tree, the cached best level and the history
  passing : ℕ → RsjDataIn → Stage Double  -- sync_set_order
  copying : ℕ → RsjDataIn → Stage Double  -- the other side's history
  reading : ℕ → RsjDataIn → Stage Double  -- the best prices, read from the histories
  returning : ℕ → RsjDataIn → Stage Double  -- consumer.Result without enough data
  awaiting_sum : ℕ → RsjDataIn → Option Double → Stage Double  -- wait_until_set_order_sum
  clearing_own_sum : ℕ → RsjDataIn → Option Double → Stage Double  -- sync_unset_order_sum
  storing : ℕ → RsjDataIn → Option Double → Stage Double  -- the sum and fp_i_history
  passing_sum : ℕ → RsjDataIn → Stage Double  -- sync_set_order_sum
  finished : Stage Double  -- past the loop

-- The state, and how many updates the producer has sent and the workers have taken, inserted and
-- stored the sum of. The counts are recorded here; only the choice of the next update reads `sent`.
pub record WorldOf (State : Type 0) : Type 0 where
  pub context : State
  pub sent : ℕ
  pub taken : ℕ
  pub inserted : ℕ
  pub summed : ℕ

module _ (P : Platform) where
  open P.doubles use {Double, decimal, of_int, add, sub, div}

  abbrev pub World : Type 0
  World = WorldOf (Context P)

  -- The parts of bids_insert and asks_insert, of insert_data, and of compute_return_fp_i and
  -- history_shift that lie between two accesses to the flags.
  unfoldable pub update_level : RsjDataIn → M P (Unit {0})
  update_level d =
      let i = d.instrument in
      let s = d.specific_index in
      if eqb_ℤ d.side side_buying
      then modify
          (λ c. record c { bids = write c.bids i (bids_update P.rb (c.bids i) s d.volume d.price) })
      else modify
          (λ c. record c { asks = write c.asks i (asks_update P.rb (c.asks i) s d.volume d.price) })

  unfoldable pub copy_other : RsjDataIn → M P (Unit {0})
  copy_other d =
      let i = d.instrument in
      let s = d.specific_index in
      if eqb_ℤ d.side side_buying
      then modify (λ c. record c { asks = write c.asks i (copy_ask P (c.asks i) s) })
      else modify (λ c. record c { bids = write c.bids i (copy_bid P (c.bids i) s) })

  unfoldable pub store_result : RsjDataIn → Option Double → M P (Unit {0})
  unfolding last_fp store_fp store_sum result
  store_result d none = do
    store_fp P d (decimal 0 0)
    c ← get
    store_sum P d (sub (c.sum_history (prev_index d.order_index)) (last_fp P c d))
  store_result d (some fp_i) = do
    c ← get
    let sum = add (sub (c.sum_history (prev_index d.order_index)) (last_fp P c d)) fp_i
    result P d.seq_num (ratio P fp_i sum)
    store_sum P d sum
    store_sum P d sum
    store_fp P d fp_i

  -- The two tests on the best prices: whether there is enough data, and whether the sum of the volumes
  -- is defined.
  unfoldable pub choose : ℕ → RsjDataIn → World → Outcome World (Stage Double)
  choose n d w =
      let bid = (w.context.bids d.instrument).history d.specific_index in
      let volask = (w.context.asks d.instrument).history d.specific_index in
      let volume = bid.vol_bid +ℤ volask in
      if not_enough volask bid.vol_bid bid.price_bid
      then done (returning n d) w
      else if is_int volume
      then done
          (awaiting_sum n d
            (some (compute_fp_i P (div (of_int bid.vol_bid) (of_int volume)) bid.price_bid)))
          w
      else fault

  -- A function of the program, and where the worker stands when it returns.
  abbrev pub on : M P (Unit {0}) → Stage Double → World → Outcome World (Stage Double)
  on m p w = elim (m w.context) [
    | done _ c ↦ done p (record w { context = c })
    | spins ↦ spins
    | fault ↦ fault
  ]

  -- One step of a worker; it `spins` in a busy loop that does not end yet.
  unfoldable pub advance : Stage Double → World → Outcome World (Stage Double)
  unfolding wait_until_set_order wait_until_set_order_sum sync_set_order sync_unset_order
      sync_set_order_sum sync_unset_order_sum result update_level copy_other store_result choose
  advance testing w = done (if eqb_ℤ w.context.running (pos 0) then finished else polling) w
  advance polling w = elim (P.ring.dequeue_spmc w.context.buffer) [
    | none ↦ spins
    | some (d, rest) ↦
        done (clearing_next w.taken d)
          (record w { context = record w.context { buffer = rest }; taken = w.taken + 1 })
  ]
  advance (clearing_next n d) w =
      on (sync_unset_order P (next_index d.order_index)) (clearing_next_sum n d) w
  advance (clearing_next_sum n d) w =
      on (sync_unset_order_sum P (next_index d.order_index)) (awaiting n d) w
  advance (awaiting n d) w =
      on
        (defined (ltb d.instrument instrument_count)
          >> (defined (ltb d.order_index history_size && ltb d.specific_index specific_history_size)
              >> wait_until_set_order P (prev_index d.order_index)))
        (clearing_own n d) w
  advance (clearing_own n d) w = on (sync_unset_order P d.order_index) (updating n d) w
  advance (updating n d) w = on (update_level d) (passing n d) w
  advance (passing n d) w =
      on (sync_set_order P d.order_index) (copying n d) (record w { inserted = w.inserted + 1 })
  advance (copying n d) w = on (copy_other d) (reading n d) w
  advance (reading n d) w = choose n d w
  advance (returning n d) w = on (result P d.seq_num (decimal 0 0)) (awaiting_sum n d none) w
  advance (awaiting_sum n d fp) w =
      on (wait_until_set_order_sum P (prev_index d.order_index)) (clearing_own_sum n d fp) w
  advance (clearing_own_sum n d fp) w = on (sync_unset_order_sum P d.order_index) (storing n d fp) w
  advance (storing n d fp) w = on (store_result d fp) (passing_sum n d) w
  advance (passing_sum n d) w =
      on (sync_set_order_sum P d.order_index) testing (record w { summed = w.summed + 1 })
  advance finished w = done finished w

  -- What destructor_c_style does to the state. The signal that it sends to the workers is not modelled.
  unfoldable pub destructor_c_style : M P (Unit {0})
  destructor_c_style = modify (λ c. record c { running = pos 0 })

  -- The producer calls `Update` with the updates of `feed`, in order.
  module _ (feed : ℕ → Update) where
    unfoldable pub produce : World → Outcome World (Unit {0})
    produce w = elim (update_c_style P (feed w.sent) w.context) [
      | done _ c ↦ done tt (record w { context = c; sent = w.sent + 1 })
      | spins ↦ spins
      | fault ↦ fault
    ]

    -- The two workers on one state.
    pub record Threads : Type 0 where
      pub world : World
      pub left : Stage Double
      pub right : Stage Double

    -- The producer, the destructor or one of the workers makes a step.
    pub data Step (t : Threads) : Threads → Type 0 where
      produces : {w : World} → produce t.world ≡ done tt w → Step t (record t { world = w })
      stops :
          {c : Context P}
          → destructor_c_style t.world.context ≡ done tt c
          → Step t (record t { world = record t.world { context = c } })
      left_moves :
          {p : Stage Double} {w : World}
          → advance t.left t.world ≡ done p w
          → Step t (record { world = w; left = p; right = t.right })
      right_moves :
          {p : Stage Double} {w : World}
          → advance t.right t.world ≡ done p w
          → Step t (record { world = w; left = t.left; right = p })

    -- After the barrier.
    abbrev pub begin : Threads
    begin = record {
      world = record {
        context = initialize_c_style P;
        sent = 0;
        taken = 0;
        inserted = 0;
        summed = 0;
      };
      left = testing;
      right = testing;
    }

    pub data Reach : Threads → Type 0 where
      here : Reach begin
      later : {t u : Threads} → Reach t → Step t u → Reach u
