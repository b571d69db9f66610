-- ===== src/Threads/Frame.antt =====
-- What a step of a worker leaves alone.
use rsj.Prelude.{
  ℕ, ◌+◌, ◌≡◌, refl, inl, inr, Bool-cases, Option-cases, ltb, arith, Option, some, none,
}
use rsj.Structures.{instrument_count}
use rsj.Platform.{Platform}
use rsj.Worker.{
  sync_set_order, sync_unset_order, sync_set_order_sum, sync_unset_order_sum, result, last_fp,
  store_fp, store_sum,
}
use rsj.Producer.{Update, numbered, enqueue, update_c_style}
use rsj.Threads.Defs.{
  Stage, testing, polling, clearing_next, clearing_next_sum, awaiting, clearing_own, updating,
  passing, copying, reading, returning, awaiting_sum, clearing_own_sum, storing, passing_sum,
  finished, World, store_result, advance, produce,
}
use rsj.Threads.Cases.{Outcomes, advance-cases}
use rsj.Threads.Links.{Ensures}

-- A worker that has changed the books and not yet said so.
abbrev pub pending : {Double : Type 0} → Stage Double → ℕ
pending (passing n d) = 1
pending _ = 0

-- The update whose books a worker has changed, where the other side's history is not yet copied.
abbrev pub lagging : {Double : Type 0} → Stage Double → Option ℕ
lagging (passing n d) = some n
lagging (copying n d) = some n
lagging _ = none

-- Every step but those that change the books: the insertion, and the copy of the other side's history.
abbrev pub KeepsBooks : {Double : Type 0} → Stage Double → Type 0
KeepsBooks (updating n d) = ⊥
KeepsBooks (copying n d) = ⊥
KeepsBooks _ = Unit

module _ (P : Platform) where
  open P.doubles use {Double}

  -- What such a step leaves as it was: the sides of all instruments, and the number of the updates that
  -- are inserted, with the one that is pending; and what is left to copy.
  abbrev pub Keeps : World P → Stage Double → Stage Double → World P → Type 0
  Keeps w p p' w' =
      (w'.context.bids ≡ w.context.bids)
      × (w'.context.asks ≡ w.context.asks)
      × (w.inserted + pending p ≡ w'.inserted + pending p')
      × (lagging p ≡ lagging p')

  same_books_each : (p : Stage Double) (w : World P) → KeepsBooks p → Outcomes P p w (Keeps w p)
  unfolding advance sync_set_order sync_unset_order sync_set_order_sum sync_unset_order_sum result
      store_result last_fp store_fp store_sum
  same_books_each testing w keeps = ((refl, refl, refl, refl), (refl, refl, refl, refl))
  same_books_each polling w keeps = λ d r. (refl, refl, refl, refl)
  same_books_each (clearing_next n d) w keeps = (refl, refl, refl, refl)
  same_books_each (clearing_next_sum n d) w keeps = (refl, refl, refl, refl)
  same_books_each (awaiting n d) w keeps = (refl, refl, refl, refl)
  same_books_each (clearing_own n d) w keeps = (refl, refl, refl, refl)
  same_books_each (passing n d) w keeps = (refl, refl, omega arith, refl)
  same_books_each (reading n d) w keeps = ((refl, refl, refl, refl), λ x. (refl, refl, refl, refl))
  same_books_each (returning n d) w keeps = (refl, refl, refl, refl)
  same_books_each (awaiting_sum n d fp) w keeps = (refl, refl, refl, refl)
  same_books_each (clearing_own_sum n d fp) w keeps = (refl, refl, refl, refl)
  same_books_each (storing n d none) w keeps = (refl, refl, refl, refl)
  same_books_each (storing n d (some fp)) w keeps = (refl, refl, refl, refl)
  same_books_each (passing_sum n d) w keeps = (refl, refl, refl, refl)
  same_books_each finished w keeps = (refl, refl, refl, refl)
  same_books_each (updating n d) w keeps = absurd keeps
  same_books_each (copying n d) w keeps = absurd keeps

  pub advance-Keeps :
      (p : Stage Double) (w : World P) → KeepsBooks p → Ensures (advance P p w) (Keeps w p)
  advance-Keeps p w keeps = advance-cases P p w (Keeps w p) (same_books_each p w keeps)

  -- A call of `Update` changes the counters and the ring.
  pub produce-Keeps :
      (feed : ℕ → Update) (w : World P) (p : Stage Double)
      → Ensures (produce P feed w) (λ _ w'. Keeps w p p w')
  unfolding produce update_c_style enqueue numbered
  produce-Keeps feed w p =
      let u = feed w.sent in
      elim (Bool-cases (ltb u.instrument instrument_count)) [
        | inl a ↦
            elim (Option-cases (P.ring.enqueue_spmc w.context.buffer (numbered P u w.context))) [
              | inl e ↦ rw (a, Ensures) (rw (e, Ensures) tt)
              | inr (r, e) ↦ rw (a, Ensures) (rw (e, Ensures) (refl, refl, refl, refl))
            ]
        | inr a ↦ rw (a, Ensures) tt
      ]
