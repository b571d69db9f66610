-- ===== src/Threads/Cases.antt =====
-- Where a step of a worker can lead (worker.cc): one case for each outcome of the tests that it makes.
use rsj.Prelude.{ℕ, ◌+◌, some, inl, inr, Bool-cases, Option-cases, ltb, ◌&&◌}
use rsj.Prelude.Int.{pos, eqb_ℤ, ◌+ℤ◌}
use rsj.Structures.{
  LookupBid, LookupAsk, RsjDataIn, instrument_count, history_size, specific_history_size,
}
use rsj.Helpers.{prev_index}
use rsj.Platform.{Platform}
use rsj.Worker.{side_buying, is_int, not_enough, wait_until_set_order, wait_until_set_order_sum}
use rsj.Threads.Defs.{
  Stage, testing, polling, clearing_next, awaiting, clearing_own, updating, passing, copying,
  reading, returning, awaiting_sum, clearing_own_sum, finished, World, update_level, copy_other,
  choose, advance,
}
use rsj.Threads.Links.{Ensures}

module _ (P : Platform) where
  open P.doubles use {Double}

  abbrev pub with_bids : World P → (ℕ → LookupBid P.rb.Table) → World P
  with_bids w b = record w { context = record w.context { bids = b } }

  abbrev pub with_asks : World P → (ℕ → LookupAsk P.rb.Table) → World P
  with_asks w a = record w { context = record w.context { asks = a } }

  -- What has to be shown for `Q` to hold after a step from a stage.
  abbrev pub Outcomes : (p : Stage Double) → World P → (Stage Double → World P → Type 0) → Type 0
  Outcomes testing w Q = Q polling w × Q finished w
  Outcomes polling w Q =
      (d : RsjDataIn) (r : P.ring.Ring)
      → Q (clearing_next w.taken d)
          (record w { context = record w.context { buffer = r }; taken = w.taken + 1 })
  Outcomes (awaiting n d) w Q = Q (clearing_own n d) w
  Outcomes (updating n d) w Q =
      ((b : ℕ → LookupBid P.rb.Table) → Q (passing n d) (with_bids w b))
      × ((a : ℕ → LookupAsk P.rb.Table) → Q (passing n d) (with_asks w a))
  Outcomes (copying n d) w Q =
      ((b : ℕ → LookupBid P.rb.Table) → Q (reading n d) (with_bids w b))
      × ((a : ℕ → LookupAsk P.rb.Table) → Q (reading n d) (with_asks w a))
  Outcomes (reading n d) w Q =
      Q (returning n d) w × ((x : Double) → Q (awaiting_sum n d (some x)) w)
  Outcomes (awaiting_sum n d fp) w Q = Q (clearing_own_sum n d fp) w
  Outcomes p w Q = Ensures (advance P p w) Q

  pub advance-cases :
      (p : Stage Double) (w : World P) (Q : Stage Double → World P → Type 0)
      → Outcomes p w Q
      → Ensures (advance P p w) Q
  unfolding advance wait_until_set_order wait_until_set_order_sum choose update_level copy_other
  advance-cases testing w Q h = elim (Bool-cases (eqb_ℤ w.context.running (pos 0))) [
    | inl e ↦ rw (e, Ensures) h.1
    | inr e ↦ rw (e, Ensures) h.0
  ]
  advance-cases polling w Q h = elim (Option-cases (P.ring.dequeue_spmc w.context.buffer)) [
    | inl e ↦ rw (e, advance, Ensures) tt
    | inr ((d, r), e) ↦ rw (e, advance, Ensures) (h d r)
  ]
  advance-cases (awaiting n d) w Q h = elim (Bool-cases (ltb d.instrument instrument_count)) [
    | inl a ↦
        elim (Bool-cases
          (ltb d.order_index history_size && ltb d.specific_index specific_history_size)) [
            | inl b ↦
                elim (Bool-cases (P.sync.is_set (w.context.order (prev_index d.order_index)))) [
                  | inl e ↦ rw (a, Ensures) (rw (b, Ensures) (rw (e, Ensures) h))
                  | inr e ↦ rw (a, Ensures) (rw (b, Ensures) (rw (e, Ensures) tt))
                ]
            | inr b ↦ rw (a, Ensures) (rw (b, Ensures) tt)
          ]
    | inr a ↦ rw (a, Ensures) tt
  ]
  advance-cases (updating n d) w Q h = elim (Bool-cases (eqb_ℤ d.side side_buying)) [
    | inl e ↦ rw (e, Ensures) (h.0 _)
    | inr e ↦ rw (e, Ensures) (h.1 _)
  ]
  advance-cases (copying n d) w Q h = elim (Bool-cases (eqb_ℤ d.side side_buying)) [
    | inl e ↦ rw (e, Ensures) (h.1 _)
    | inr e ↦ rw (e, Ensures) (h.0 _)
  ]
  advance-cases (reading n d) w Q h =
      let bid = (w.context.bids d.instrument).history d.specific_index in
      let volask = (w.context.asks d.instrument).history d.specific_index in
      elim (Bool-cases (not_enough volask bid.vol_bid bid.price_bid)) [
        | inl e ↦ rw (e, Ensures) h.0
        | inr e ↦ elim (Bool-cases (is_int (bid.vol_bid +ℤ volask))) [
          | inl f ↦ rw (e, Ensures) (rw (f, Ensures) (h.1 _))
          | inr f ↦ rw (e, Ensures) (rw (f, Ensures) tt)
        ]
      ]
  advance-cases (awaiting_sum n d fp) w Q h =
      elim (Bool-cases (P.sync.is_set (w.context.order_sum (prev_index d.order_index)))) [
        | inl e ↦ rw (e, Ensures) h
        | inr e ↦ rw (e, Ensures) tt
      ]
  advance-cases p w Q h = h
