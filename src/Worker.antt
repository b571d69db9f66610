-- ===== src/Worker.antt =====
-- worker.cc: one pass of a worker thread over one update, from the update's arrival to its result.
pub mod Insert
pub mod Report
pub mod Waits
pub mod Race
use rsj.Prelude.{ℕ, ◌+◌, none, some, Bool, ◌&&◌, ◌||◌, ◌∷◌, ltb, write, if◌then◌else◌}
use rsj.Prelude.Int.{ℤ, pos, negsuc, eqb_ℤ, ltb_ℤ, ◌+ℤ◌}
use rsj.Structures.{
  RsjDataIn, LookupBid, LookupAsk, instrument_count, history_size, specific_history_size,
}
use rsj.Helpers.{prev_index, next_index, prev_index_spec}
use rsj.OrderBook.{int_max}
use rsj.Table.{bids_update, asks_update}
use rsj.Platform.{Platform}
use rsj.Context.{Context, Outcome, spins, ◌>>=◌, ◌>>◌, get, modify, until, defined}

abbrev pub side_buying : ℤ
side_buying = pos 0

-- Whether a sum is an `int`; what C does with any other is undefined.
abbrev pub is_int : ℤ → Bool
is_int v = ltb_ℤ v (pos (int_max + 1)) && ltb_ℤ (negsuc (int_max + 1)) v

-- Whether a side of the book or the best price is missing.
abbrev pub not_enough : ℤ → ℤ → ℤ → Bool
not_enough volask volbid pricebid =
    eqb_ℤ volask (pos 0) || (eqb_ℤ volbid (pos 0) || eqb_ℤ pricebid (pos 0))

module _ (P : Platform) where
  open P.doubles use {Double, decimal, of_int, add, sub, mul, div, atan, isinf}
  open P.sync use {is_set, set, unset}

  abbrev pub M : Type 0 → Type 0
  M A = Context P → Outcome (Context P) A

  unfoldable pub wait_until_set_order : ℕ → M (Unit {0})
  wait_until_set_order index = until (λ c. is_set (c.order index))

  unfoldable pub wait_until_set_order_sum : ℕ → M (Unit {0})
  wait_until_set_order_sum index = until (λ c. is_set (c.order_sum index))

  unfoldable pub sync_set_order : ℕ → M (Unit {0})
  sync_set_order index =
      modify (λ c. record c { order = write c.order index (set (c.order index)) })

  unfoldable pub sync_unset_order : ℕ → M (Unit {0})
  sync_unset_order index =
      modify (λ c. record c { order = write c.order index (unset (c.order index)) })

  unfoldable pub sync_set_order_sum : ℕ → M (Unit {0})
  sync_set_order_sum index =
      modify (λ c. record c { order_sum = write c.order_sum index (set (c.order_sum index)) })

  unfoldable pub sync_unset_order_sum : ℕ → M (Unit {0})
  sync_unset_order_sum index =
      modify (λ c. record c { order_sum = write c.order_sum index (unset (c.order_sum index)) })

  -- `consumer.Result`
  unfoldable pub result : ℤ → Double → M (Unit {0})
  result seq_num fp = modify (λ c. record c { results = (seq_num, fp) ∷ c.results })

  unfoldable pub bids_insert : ℕ → ℕ → ℕ → ℤ → ℤ → M (Unit {0})
  unfolding wait_until_set_order sync_unset_order sync_set_order
  bids_insert instrument history_index specific_index vol_bid price_bid = do
    wait_until_set_order (prev_index history_index)
    sync_unset_order history_index
    modify (λ c. record c {
      bids =
          write c.bids instrument
            (bids_update P.rb (c.bids instrument) specific_index vol_bid price_bid);
    })
    sync_set_order history_index

  unfoldable pub asks_insert : ℕ → ℕ → ℕ → ℤ → ℤ → M (Unit {0})
  unfolding wait_until_set_order sync_unset_order sync_set_order
  asks_insert instrument history_index specific_index vol_ask price_ask = do
    wait_until_set_order (prev_index history_index)
    sync_unset_order history_index
    modify (λ c. record c {
      asks =
          write c.asks instrument
            (asks_update P.rb (c.asks instrument) specific_index vol_ask price_ask);
    })
    sync_set_order history_index

  -- The other side's history goes on with its previous entry.
  unfoldable pub copy_ask : LookupAsk P.rb.Table → ℕ → LookupAsk P.rb.Table
  copy_ask a s = record a { history = write a.history s (a.history (prev_index_spec s)) }

  unfoldable pub copy_bid : LookupBid P.rb.Table → ℕ → LookupBid P.rb.Table
  copy_bid b s = record b { history = write b.history s (b.history (prev_index_spec s)) }

  unfoldable pub insert_data : RsjDataIn → M (Unit {0})
  unfolding bids_insert asks_insert copy_ask copy_bid
  insert_data d =
      let s = d.specific_index in
      let i = d.instrument in
      if eqb_ℤ d.side side_buying
      then (do
        bids_insert i d.order_index s d.volume d.price
        modify (λ c. record c { asks = write c.asks i (copy_ask (c.asks i) s) }))
      else (do
        asks_insert i d.order_index s d.volume d.price
        modify (λ c. record c { bids = write c.bids i (copy_bid (c.bids i) s) }))

  unfoldable pub compute_fp_i : Double → ℤ → Double
  compute_fp_i equity pricebid_i =
      let one = decimal 1 0 in
      let pi2 = decimal 1464225476445437 15 in
      let atanconst = decimal 25100268664303466 17 in
      let f = mul (decimal 15 1) (sub (sub one equity) (mul (sub equity one) (sub equity one))) in
      let g = sub (mul pi2 (atan (div equity (decimal 39 1)))) (mul equity atanconst) in
      add (add (of_int pricebid_i) f) g

  -- `res` with the test for infinity.
  unfoldable pub ratio : Double → Double → Double
  ratio fp_i sum = let res = div fp_i sum in if isinf res then decimal 1 0 else res

  -- The last access of `fp_i_history[instrument]`, and a write to it.
  unfoldable pub last_fp : Context P → RsjDataIn → Double
  last_fp c d = c.fp_i_history d.instrument (prev_index_spec d.specific_index)

  unfoldable pub store_fp : RsjDataIn → Double → M (Unit {0})
  store_fp d fp = modify (λ c. record c {
    fp_i_history =
        write c.fp_i_history d.instrument (write (c.fp_i_history d.instrument) d.specific_index fp);
  })

  unfoldable pub store_sum : RsjDataIn → Double → M (Unit {0})
  store_sum d sum = modify (λ c. record c { sum_history = write c.sum_history d.order_index sum })

  unfoldable pub compute_return_fp_i : RsjDataIn → ℤ → ℤ → ℤ → M (Unit {0})
  unfolding wait_until_set_order_sum sync_unset_order_sum sync_set_order_sum result last_fp store_fp
      store_sum
  compute_return_fp_i d volbid volask pricebid = do
    defined (is_int (volbid +ℤ volask))
    let fp_i = compute_fp_i (div (of_int volbid) (of_int (volbid +ℤ volask))) pricebid
    wait_until_set_order_sum (prev_index d.order_index)
    sync_unset_order_sum d.order_index
    c ← get
    let sum = add (sub (c.sum_history (prev_index d.order_index)) (last_fp c d)) fp_i
    result d.seq_num (ratio fp_i sum)
    store_sum d sum
    store_sum d sum
    store_fp d fp_i
    sync_set_order_sum d.order_index

  unfoldable pub history_shift : RsjDataIn → M (Unit {0})
  unfolding wait_until_set_order_sum sync_unset_order_sum sync_set_order_sum last_fp store_fp
      store_sum
  history_shift d = do
    wait_until_set_order_sum (prev_index d.order_index)
    sync_unset_order_sum d.order_index
    store_fp d (decimal 0 0)
    c ← get
    store_sum d (sub (c.sum_history (prev_index d.order_index)) (last_fp c d))
    sync_set_order_sum d.order_index

  -- The second half of the loop's body: the best prices are read back from the histories, and the
  -- result is given.
  unfoldable pub report_update : RsjDataIn → M (Unit {0})
  unfolding result
  report_update d = do
    c ← get
    let pricebid = ((c.bids d.instrument).history d.specific_index).price_bid
    let volbid = ((c.bids d.instrument).history d.specific_index).vol_bid
    let volask = (c.asks d.instrument).history d.specific_index
    if not_enough volask volbid pricebid
        then (do result d.seq_num (decimal 0 0); history_shift d)
        else compute_return_fp_i d volbid volask pricebid

  -- The body of the loop of `worker_start`, once the ring has given it an update. The indices of an
  -- update are in the bounds of the arrays that they go into, or the access is undefined.
  unfoldable pub handle_update : RsjDataIn → M (Unit {0})
  unfolding sync_unset_order sync_unset_order_sum
  handle_update d = do
    sync_unset_order (next_index d.order_index)
    sync_unset_order_sum (next_index d.order_index)
    defined (ltb d.instrument instrument_count)
    defined (ltb d.order_index history_size && ltb d.specific_index specific_history_size)
    insert_data d
    report_update d

  -- One round of the loop: `spins` while the ring is empty.
  unfoldable pub worker_round : M (Unit {0})
  worker_round c = elim (P.ring.dequeue_spmc c.buffer) [
    | none ↦ spins
    | some (d, rest) ↦ handle_update d (record c { buffer = rest })
  ]
