-- ===== src/Threads/Gates.antt =====
-- The steps of a worker that depend on a test, with the state that they lead to.
use rsj.Prelude.{ℕ, ◌≡◌, refl, Option, some, write, true, false, ltb}
use rsj.Prelude.Int.{ℤ, eqb_ℤ, ◌+ℤ◌}
use rsj.Structures.{RsjDataIn, RsjPair, instrument_count}
use rsj.Helpers.{prev_index}
use rsj.Table.{bids_update, asks_update}
use rsj.Platform.{Platform}
use rsj.Context.{done, ◌>>=◌, until}
use rsj.Worker.{
  compute_fp_i, copy_ask, copy_bid, is_int, not_enough, wait_until_set_order,
  wait_until_set_order_sum, side_buying,
}
use rsj.Worker.Waits.{and-true, in_bounds}
use rsj.Threads.Defs.{
  awaiting, clearing_own, updating, passing, copying, reading, returning, awaiting_sum,
  clearing_own_sum, World, update_level, copy_other, choose, advance, on,
}

module _ (P : Platform) where
  open P.doubles use {Double}
  open P.sync use {is_set}

  -- The steps that depend on a test.
  module _ (n : ℕ) (d : RsjDataIn) (w : World P) where
    abbrev pub bid : RsjPair
    bid = (w.context.bids d.instrument).history d.specific_index

    abbrev pub volask : ℤ
    volask = (w.context.asks d.instrument).history d.specific_index

    abbrev pub fp_i : Double
    fp_i =
        compute_fp_i P
          (P.doubles.div (P.doubles.of_int bid.vol_bid) (P.doubles.of_int (bid.vol_bid +ℤ volask)))
          bid.price_bid

    pub choose_returning :
        not_enough volask bid.vol_bid bid.price_bid ≡ true
        → advance P (reading n d) w ≡ done (returning n d) w
    unfolding advance choose
    choose_returning e = rw e refl

    pub choose_sum :
        not_enough volask bid.vol_bid bid.price_bid ≡ false
        → is_int (bid.vol_bid +ℤ volask) ≡ true
        → advance P (reading n d) w ≡ done (awaiting_sum n d (some fp_i)) w
    unfolding advance choose
    choose_sum e f = rw e (rw f refl)

    pub sum_turn :
        (fp : Option Double)
        → is_set (w.context.order_sum (prev_index d.order_index)) ≡ true
        → advance P (awaiting_sum n d fp) w ≡ done (clearing_own_sum n d fp) w
    unfolding advance wait_until_set_order_sum
    sum_turn fp e = rw (e, advance, on, until) refl

    pub order_turn :
        in_bounds P d ≡ true
        → is_set (w.context.order (prev_index d.order_index)) ≡ true
        → advance P (awaiting n d) w ≡ done (clearing_own n d) w
    unfolding advance wait_until_set_order
    order_turn h e =
        let (a, b) = and-true (ltb d.instrument instrument_count) _ h in
        rw a (rw b (rw (e, ◌>>=◌, on, until) refl))

    pub update_buy :
        eqb_ℤ d.side side_buying ≡ true
        → advance P (updating n d) w
          ≡ done (passing n d) (record w {
            context = record w.context {
              bids = write w.context.bids d.instrument (
                  bids_update P.rb (w.context.bids d.instrument) d.specific_index d.volume d.price);
            };
          })
    unfolding advance update_level
    update_buy e = rw e refl

    pub update_sell :
        eqb_ℤ d.side side_buying ≡ false
        → advance P (updating n d) w
          ≡ done (passing n d) (record w {
            context = record w.context {
              asks = write w.context.asks d.instrument (
                  asks_update P.rb (w.context.asks d.instrument) d.specific_index d.volume d.price);
            };
          })
    unfolding advance update_level
    update_sell e = rw e refl

    pub copy_buy :
        eqb_ℤ d.side side_buying ≡ true
        → advance P (copying n d) w
          ≡ done (reading n d) (record w {
            context = record w.context {
              asks =
                  write w.context.asks d.instrument
                    (copy_ask P (w.context.asks d.instrument) d.specific_index);
            };
          })
    unfolding advance copy_other
    copy_buy e = rw e refl

    pub copy_sell :
        eqb_ℤ d.side side_buying ≡ false
        → advance P (copying n d) w
          ≡ done (reading n d) (record w {
            context = record w.context {
              bids =
                  write w.context.bids d.instrument
                    (copy_bid P (w.context.bids d.instrument) d.specific_index);
            };
          })
    unfolding advance copy_other
    copy_sell e = rw e refl
