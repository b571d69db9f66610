-- ===== src/Threads/Told.antt =====
-- What a step of a worker leaves alone of the sums, and what the consumer is told (worker.cc).
use rsj.Prelude.{
  ℕ, ◌+◌, ◌≡◌, refl, Option, none, some, List, [], ◌∷◌, ◌++◌, inl, inr, Bool-cases, Option-cases,
  ltb, arith,
}
use rsj.Prelude.Int.{ℤ}
use rsj.Structures.{RsjDataIn, instrument_count}
use rsj.Platform.{Platform}
use rsj.Worker.{sync_set_order, sync_unset_order, sync_set_order_sum, sync_unset_order_sum, result}
use rsj.Producer.{Update, numbered, enqueue, update_c_style}
use rsj.Threads.Defs.{
  Stage, testing, polling, clearing_next, clearing_next_sum, awaiting, clearing_own, updating,
  passing, copying, reading, returning, awaiting_sum, clearing_own_sum, storing, passing_sum,
  finished, World, advance, produce,
}
use rsj.Threads.Cases.{Outcomes, advance-cases}
use rsj.Threads.Links.{Ensures}

-- A worker that has stored its sum and not yet said so.
abbrev pub pending_sum : {Double : Type 0} → Stage Double → ℕ
pending_sum (passing_sum n d) = 1
pending_sum _ = 0

-- Every step but the one that stores the sum.
abbrev pub KeepsTotals : {Double : Type 0} → Stage Double → Type 0
KeepsTotals (storing n d fp) = ⊥
KeepsTotals _ = Unit

module _ (P : Platform) where
  open P.doubles use {Double, decimal}

  -- The result that the consumer is told before the sum is stored: without enough data.
  abbrev pub told : RsjDataIn → Option Double → List (ℤ × Double)
  told d none = (d.seq_num, decimal 0 0) ∷ []
  told d (some x) = []

  abbrev pub early : Stage Double → List (ℤ × Double)
  early (awaiting_sum n d fp) = told d fp
  early (clearing_own_sum n d fp) = told d fp
  early (storing n d fp) = told d fp
  early _ = []

  -- What such a step leaves as it was: the sums, the values of fp, and the number of the sums that are
  -- stored. It may tell the consumer a result early.
  abbrev pub TotalsStay : World P → Stage Double → Stage Double → World P → Type 0
  TotalsStay w p p' w' =
      (w'.context.sum_history ≡ w.context.sum_history)
      × (w'.context.fp_i_history ≡ w.context.fp_i_history)
      × (w.summed + pending_sum p ≡ w'.summed + pending_sum p')
      × (more : List (ℤ × Double)) × (w'.context.results ≡ more ++ w.context.results)
      × (early p' ≡ more ++ early p)

  stay_each : (p : Stage Double) (w : World P) → KeepsTotals p → Outcomes P p w (TotalsStay w p)
  unfolding advance sync_set_order sync_unset_order sync_set_order_sum sync_unset_order_sum result
  stay_each testing w keeps =
      ((refl, refl, refl, [], refl, refl), (refl, refl, refl, [], refl, refl))
  stay_each polling w keeps = λ d r. (refl, refl, refl, [], refl, refl)
  stay_each (clearing_next n d) w keeps = (refl, refl, refl, [], refl, refl)
  stay_each (clearing_next_sum n d) w keeps = (refl, refl, refl, [], refl, refl)
  stay_each (awaiting n d) w keeps = (refl, refl, refl, [], refl, refl)
  stay_each (clearing_own n d) w keeps = (refl, refl, refl, [], refl, refl)
  stay_each (updating n d) w keeps =
      (λ b. (refl, refl, refl, [], refl, refl), λ a. (refl, refl, refl, [], refl, refl))
  stay_each (passing n d) w keeps = (refl, refl, refl, [], refl, refl)
  stay_each (copying n d) w keeps =
      (λ b. (refl, refl, refl, [], refl, refl), λ a. (refl, refl, refl, [], refl, refl))
  stay_each (reading n d) w keeps =
      ((refl, refl, refl, [], refl, refl), λ x. (refl, refl, refl, [], refl, refl))
  stay_each (returning n d) w keeps = (refl, refl, refl, (d.seq_num, decimal 0 0) ∷ [], refl, refl)
  stay_each (awaiting_sum n d fp) w keeps = (refl, refl, refl, [], refl, refl)
  stay_each (clearing_own_sum n d fp) w keeps = (refl, refl, refl, [], refl, refl)
  stay_each (passing_sum n d) w keeps = (refl, refl, omega arith, [], refl, refl)
  stay_each finished w keeps = (refl, refl, refl, [], refl, refl)
  stay_each (storing n d fp) w keeps = absurd keeps

  pub advance-TotalsStay :
      (p : Stage Double) (w : World P) → KeepsTotals p → Ensures (advance P p w) (TotalsStay w p)
  advance-TotalsStay p w keeps = advance-cases P p w (TotalsStay w p) (stay_each p w keeps)

  -- A call of `Update` changes the counters and the ring.
  pub produce-TotalsStay :
      (feed : ℕ → Update) (w : World P) (p : Stage Double)
      → Ensures (produce P feed w) (λ _ w'. TotalsStay w p p w')
  unfolding produce update_c_style enqueue numbered
  produce-TotalsStay feed w p =
      let u = feed w.sent in
      elim (Bool-cases (ltb u.instrument instrument_count)) [
        | inl a ↦
            elim (Option-cases (P.ring.enqueue_spmc w.context.buffer (numbered P u w.context))) [
              | inl e ↦ rw (a, Ensures) (rw (e, Ensures) tt)
              | inr (r, e) ↦ rw (a, Ensures) (rw (e, Ensures) (refl, refl, refl, [], refl, refl))
            ]
        | inr a ↦ rw (a, Ensures) tt
      ]
