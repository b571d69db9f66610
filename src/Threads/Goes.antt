-- ===== src/Threads/Goes.antt =====
-- The steps of a worker that waits for nothing.
use rsj.Prelude.{ℕ, ◌<◌, ◌≡◌, refl, ap, none, some, true, ltb_of_lt, inl, inr, Bool-cases, arith}
use rsj.Prelude.Int.{eqb_ℤ, ◌+ℤ◌}
use rsj.Structures.{RsjDataIn, instrument_count, history_size, specific_history_size}
use rsj.Helpers.{prev_index}
use rsj.Platform.{Platform}
use rsj.Context.{Context, done}
use rsj.Worker.{
  is_int, not_enough, side_buying, wait_until_set_order, wait_until_set_order_sum, sync_set_order,
  sync_unset_order, sync_set_order_sum, sync_unset_order_sum, result, last_fp, store_fp, store_sum,
}
use rsj.Worker.Waits.{in_bounds}
use rsj.Producer.{Update}
use rsj.Refinement.{IsUpdate}
use rsj.Refinement.Report.{is_int_sum}
use rsj.Turns.Local.{busy}
use rsj.Threads.Defs.{
  Stage, testing, polling, clearing_next, clearing_next_sum, awaiting, clearing_own, updating,
  passing, copying, reading, returning, awaiting_sum, clearing_own_sum, storing, passing_sum,
  finished, World, store_result, advance,
}
use rsj.Threads.Links.{pc_of_stage, HasUpdate, IsNumbered}
use rsj.Threads.Volumes.{HasVolumes}
use rsj.Threads.Gates.{
  choose_returning, choose_sum, sum_turn, order_turn, update_buy, update_sell, copy_buy, copy_sell,
}

-- At most so many steps are left of a worker's pass.
abbrev pub remaining : {Double : Type 0} → Stage Double → ℕ
remaining (clearing_next n d) = 13
remaining (clearing_next_sum n d) = 12
remaining (awaiting n d) = 11
remaining (clearing_own n d) = 10
remaining (updating n d) = 9
remaining (passing n d) = 8
remaining (copying n d) = 7
remaining (reading n d) = 6
remaining (returning n d) = 5
remaining (awaiting_sum n d fp) = 4
remaining (clearing_own_sum n d fp) = 3
remaining (storing n d fp) = 2
remaining (passing_sum n d) = 1
remaining _ = 0

module _ (P : Platform) (feed : ℕ → Update) (v : (n : ℕ) → IsUpdate (feed n)) where
  open P.doubles use {Double}

  -- The n-th update that was sent has its indices in the bounds of the arrays.
  pub IsNumbered-in_bounds : (n : ℕ) (d : RsjDataIn) → IsNumbered P feed n d → in_bounds P d ≡ true
  IsNumbered-in_bounds n d (e, s, _) =
      let i : d.instrument < instrument_count =
        rw (ap (λ (x : RsjDataIn). x.instrument) e) (v n).instrument in
      let o : d.order_index < history_size =
        rw (ap (λ (x : RsjDataIn). x.order_index) e) (omega arith) in
      rw
        (
          ltb_of_lt d.instrument instrument_count i,
          ltb_of_lt d.order_index history_size o,
          ltb_of_lt d.specific_index specific_history_size s,
        )
        refl

  volume_is_int :
      (d : RsjDataIn) (c : Context P)
      → HasVolumes P c
      → is_int (
          ((c.bids d.instrument).history d.specific_index).vol_bid
          +ℤ (c.asks d.instrument).history d.specific_index)
        ≡ true
  volume_is_int d c h =
      is_int_sum _ _ (h.bids d.instrument d.specific_index) (h.asks d.instrument d.specific_index)

  -- A worker at a place where it waits for nothing makes a step.
  abbrev pub IsFree : Stage Double → World P → Type 0
  IsFree polling w = ⊥
  IsFree (awaiting n d) w = P.sync.is_set (w.context.order (prev_index d.order_index)) ≡ true
  IsFree (awaiting_sum n d fp) w =
      P.sync.is_set (w.context.order_sum (prev_index d.order_index)) ≡ true
  IsFree _ w = Unit

  abbrev pub Goes : Stage Double → World P → Type 0
  Goes p w =
      (p' : Stage Double) × (w' : World P) × (advance P p w ≡ done p' w')
      × (w'.taken ≡ w.taken)
      × (w'.sent ≡ w.sent)
      × (busy (pc_of_stage p) ≡ 1 → remaining p' < remaining p)

  pub advance-Goes :
      (p : Stage Double) (w : World P)
      → HasUpdate P feed p
      → HasVolumes P w.context
      → IsFree p w
      → Goes p w
  unfolding advance wait_until_set_order wait_until_set_order_sum sync_set_order sync_unset_order
      sync_set_order_sum sync_unset_order_sum result store_result last_fp store_fp store_sum
  advance-Goes testing w u h f = (_, _, refl, refl, refl, λ b. omega arith)
  advance-Goes polling w u h f = absurd f
  advance-Goes (clearing_next n d) w u h f = (_, _, refl, refl, refl, λ b. omega arith)
  advance-Goes (clearing_next_sum n d) w u h f = (_, _, refl, refl, refl, λ b. omega arith)
  advance-Goes (awaiting n d) w u h f =
      (_, _, order_turn P n d w (IsNumbered-in_bounds n d u) f, refl, refl, λ b. omega arith)
  advance-Goes (clearing_own n d) w u h f = (_, _, refl, refl, refl, λ b. omega arith)
  advance-Goes (updating n d) w u h f = elim (Bool-cases (eqb_ℤ d.side side_buying)) [
    | inl e ↦ (_, _, update_buy P n d w e, refl, refl, λ b. omega arith)
    | inr e ↦ (_, _, update_sell P n d w e, refl, refl, λ b. omega arith)
  ]
  advance-Goes (passing n d) w u h f = (_, _, refl, refl, refl, λ b. omega arith)
  advance-Goes (copying n d) w u h f = elim (Bool-cases (eqb_ℤ d.side side_buying)) [
    | inl e ↦ (_, _, copy_buy P n d w e, refl, refl, λ b. omega arith)
    | inr e ↦ (_, _, copy_sell P n d w e, refl, refl, λ b. omega arith)
  ]
  advance-Goes (reading n d) w u h f =
      let bid = (w.context.bids d.instrument).history d.specific_index in
      let volask = (w.context.asks d.instrument).history d.specific_index in
      elim (Bool-cases (not_enough volask bid.vol_bid bid.price_bid)) [
        | inl e ↦ (_, _, choose_returning P n d w e, refl, refl, λ b. omega arith)
        | inr e ↦
            (_, _, choose_sum P n d w e (volume_is_int d w.context h), refl, refl, λ b. omega arith)
      ]
  advance-Goes (returning n d) w u h f = (_, _, refl, refl, refl, λ b. omega arith)
  advance-Goes (awaiting_sum n d fp) w u h f =
      (_, _, sum_turn P n d w fp f, refl, refl, λ b. omega arith)
  advance-Goes (clearing_own_sum n d fp) w u h f = (_, _, refl, refl, refl, λ b. omega arith)
  advance-Goes (storing n d none) w u h f = (_, _, refl, refl, refl, λ b. omega arith)
  advance-Goes (storing n d (some fp)) w u h f = (_, _, refl, refl, refl, λ b. omega arith)
  advance-Goes (passing_sum n d) w u h f = (_, _, refl, refl, refl, λ b. omega arith)
  advance-Goes finished w u h f = (_, _, refl, refl, refl, λ b. omega arith)
