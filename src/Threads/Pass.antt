-- ===== src/Threads/Pass.antt =====
-- One worker alone: its steps in Threads (worker.cc), one after the other, make up the pass of Worker.
use rsj.Prelude.{
  ℕ, ◌+◌, ◌<◌, ◌≡◌, refl, sym, ◌∙◌, subst, none, some, ◌∷◌, inl, inr, write, Bool-cases, true,
}
use rsj.Prelude.Int.{eqb_ℤ, ◌+ℤ◌}
use rsj.Structures.{RsjDataIn, history_size, specific_history_size}
use rsj.Helpers.{prev_index, prev_index_spec}
use rsj.Table.{bids_update, asks_update}
use rsj.Platform.{Platform}
use rsj.Context.{Context, Outcome, done, ◌>>=◌}
use rsj.Worker.{
  is_int, not_enough, wait_until_set_order_sum, sync_set_order, sync_unset_order,
  sync_set_order_sum, sync_unset_order_sum, result, last_fp, store_fp, store_sum, insert_data,
  report_update, compute_return_fp_i, history_shift, handle_update, side_buying,
}
use rsj.Worker.Insert.{turned, bought, sold, insert_data_buy, insert_data_sell}
use rsj.Worker.Waits.{
  Stuck-done, report_update_waits, handle_update_in_turn, handle_update-in_bounds, taken_back,
  kept_flag,
}
use rsj.Producer.{Update, placed}
use rsj.Market.{Market, trade}
use rsj.Refinement.{IsUpdate, TracksInstrument, TracksSum, Frame}
use rsj.Refinement.Handle.{handle_update_tracks}
use rsj.Threads.Gates.{
  fp_i, choose_returning, choose_sum, sum_turn, order_turn, update_buy, update_sell, copy_buy,
  copy_sell,
}
use rsj.Threads.Defs.{
  Stage, testing, clearing_next, updating, reading, World, store_result, choose, advance,
}

abbrev the_end : {S : Type 0} → S → Outcome S (Unit {0})
the_end s = done tt s

done-state : {S : Type 0} (s t : S) → the_end s ≡ the_end t → s ≡ t
done-state s t e = cc

module _ (P : Platform) where
  open P.doubles use {Double}
  open P.sync use {is_set}

  -- Steps of one worker, while no other thread moves.
  pub data Steps (q : Stage Double) (v : World P) : Stage Double → World P → Type 0 where
    arrived : Steps q v q v
    step :
        {p p' : Stage Double} {w w' : World P}
        → advance P p w ≡ done p' w'
        → Steps q v p' w'
        → Steps q v p w

  -- The state of a worker that has stored its sum.
  abbrev after_sum : World P → Context P → World P
  after_sum w c = record w { context = c; summed = w.summed + 1 }

  ends_at :
      {n : ℕ} {d : RsjDataIn} {w : World P} {c : Context P} (c' : Context P)
      → Steps testing (after_sum w c) (reading n d) w
      → the_end c ≡ the_end c'
      → Steps testing (after_sum w c') (reading n d) w
  ends_at {n} {d} {w} {c} c' steps e =
      subst (λ x. Steps testing (after_sum w x) (reading n d) w) (done-state c c' e) steps

  -- The consumer has been given the result without enough data.
  abbrev answered : RsjDataIn → World P → World P
  answered d w = record w {
    context = record w.context { results = (d.seq_num, P.doubles.decimal 0 0) ∷ w.context.results };
  }

  report_update-Steps :
      (n : ℕ) (d : RsjDataIn) (w : World P) (c' : Context P)
      → report_update P d w.context ≡ done tt c'
      → Steps testing (after_sum w c') (reading n d) w
  unfolding advance choose report_update wait_until_set_order_sum sync_set_order_sum
      sync_unset_order_sum result store_result last_fp store_fp store_sum compute_return_fp_i
      history_shift
  report_update-Steps n d w c' h =
      let bid = (w.context.bids d.instrument).history d.specific_index in
      let volask = (w.context.asks d.instrument).history d.specific_index in
      elim (Bool-cases (is_set (w.context.order_sum (prev_index d.order_index)))) [
        | inr t ↦ absurd (Stuck-done _ _ _ (report_update_waits P d w.context t) h)
        | inl t ↦ elim (Bool-cases (not_enough volask bid.vol_bid bid.price_bid)) [
          | inl e ↦
              ends_at c'
                (step (choose_returning P n d w e) (
                  step refl (
                    step (sum_turn P n d (answered d w) none t)
                      (step refl (step refl (step refl arrived))))))
                (rw (t, ◌>>=◌) at (rw e at h))
          | inr e ↦ elim (Bool-cases (is_int (bid.vol_bid +ℤ volask))) [
            | inl f ↦
                ends_at c'
                  (step (choose_sum P n d w e f) (
                    step (sum_turn P n d w (some (fp_i P n d w)) t)
                      (step refl (step refl (step refl arrived)))))
                  (rw (t, ◌>>=◌) at (rw f at (rw e at h)))
            | inr f ↦ absurd (Stuck-done _ _ _ (inr (rw e (rw f refl))) h)
          ]
        ]
      ]

  -- An update that handle_update handles to the end is handled by the steps of one worker, to the same
  -- state.
  handle_update-Steps :
      (n : ℕ) (d : RsjDataIn) (w : World P) (c' : Context P)
      → handle_update P d w.context ≡ done tt c'
      → Steps testing
          (record w { context = c'; inserted = w.inserted + 1; summed = w.summed + 1 })
          (clearing_next n d)
          w
  unfolding advance sync_set_order sync_unset_order sync_unset_order_sum bought sold
  handle_update-Steps n d w c' h =
      let (fits, turn, _) = handle_update_in_turn P d w.context c' h in
      let c2 = taken_back P d w.context in
      let t : is_set (c2.order (prev_index d.order_index)) ≡ true =
        kept_flag P d w.context.order fits ∙ turn in
      let left : (insert_data P d >>= λ _. report_update P d) c2 ≡ done tt c' =
        sym (handle_update-in_bounds P d w.context fits) ∙ h in
      let own = record w {
        context = record c2 {
          order = write c2.order d.order_index (P.sync.unset (c2.order d.order_index));
        };
      } in
      let passed = record w {
        inserted = w.inserted + 1;
        context = record c2 { order = turned P c2.order d.order_index };
      } in
      let rest : Steps testing
          (record w { context = c'; inserted = w.inserted + 1; summed = w.summed + 1 })
          (updating n d) own =
        elim (Bool-cases (eqb_ℤ d.side side_buying)) [
          | inl e ↦ step (update_buy P n d own e) (
              step refl (
                step
                  (copy_buy P n d
                    (record passed {
                      context = record passed.context {
                        bids = write c2.bids d.instrument (
                            bids_update P.rb (c2.bids d.instrument) d.specific_index d.volume
                              d.price);
                      };
                    })
                    e)
                  (report_update-Steps n d
                    (record w { context = bought P d c2; inserted = w.inserted + 1 }) c'
                    (rw (insert_data_buy P d c2 t e, ◌>>=◌) at left))))
          | inr e ↦ step (update_sell P n d own e) (
              step refl (
                step
                  (copy_sell P n d
                    (record passed {
                      context = record passed.context {
                        asks = write c2.asks d.instrument (
                            asks_update P.rb (c2.asks d.instrument) d.specific_index d.volume
                              d.price);
                      };
                    })
                    e)
                  (report_update-Steps n d
                    (record w { context = sold P d c2; inserted = w.inserted + 1 }) c'
                    (rw (insert_data_sell P d c2 t e, ◌>>=◌) at left))))
        ] in
      step refl
        (step refl (step (order_turn P n d (record w { context = c2 }) fits t) (step refl rest)))

  -- At its turn, a worker alone takes an update within the bounds to its end: from the state in which the
  -- update was taken from the ring there are steps of this worker to one in which it is back at the
  -- test of the loop, the instrument, the sum and the results are those of the market after the
  -- update, and all else is as before, but for the flags of the next place, which are unset.
  pub worker_alone :
      (u : Update) (m : Market P) (n oi s : ℕ) (w : World P)
      → IsUpdate u
      → oi < history_size
      → s < specific_history_size
      → TracksInstrument P m w.context u.instrument (prev_index_spec s)
      → TracksSum P m w.context (prev_index oi)
      → (c' : Context P) × Steps testing
          (record w { context = c'; inserted = w.inserted + 1; summed = w.summed + 1 })
          (clearing_next n (placed u oi s))
          w
        × TracksInstrument P (trade P u m) c' u.instrument s
        × TracksSum P (trade P u m) c' oi
        × Frame P u.instrument oi s w.context c'
  worker_alone u m n oi s w v oi_in s_in t sum =
      let (c', h) = handle_update_tracks P u m w.context oi s v oi_in s_in t sum in
      (c', handle_update-Steps n (placed u oi s) w c' h.ends, h.instrument, h.sum, h.frame)
