-- ===== src/Threads/Project.antt =====
-- The workers of Threads, seen as those of Turns: every step is one of theirs, or leaves the flags and
-- the places of the workers as they are.
use rsj.Prelude.{
  ℕ, ◌+◌, ◌≡◌, refl, sym, ◌∙◌, ap, none, some, ◌∷◌, length, inl, inr, Bool-cases, arith, ltb, ◌&&◌,
  List-cases,
}
use rsj.Prelude.Int.{pos, eqb_ℤ, ◌+ℤ◌}
use rsj.Structures.{RsjDataIn, instrument_count, history_size, specific_history_size}
use rsj.Helpers.{prev_index, next_index}
use rsj.Platform.{Platform}
use rsj.Context.{Context}
use rsj.Worker.{
  side_buying, is_int, not_enough, wait_until_set_order, wait_until_set_order_sum, sync_set_order,
  sync_unset_order, sync_set_order_sum, sync_unset_order_sum, result, last_fp, store_fp, store_sum,
}
use rsj.Producer.{Update}
use rsj.Turns.Defs.{
  place, Shared, idle, fetched, half_ready, waiting, entered, inserting, waiting_sum, entered_sum,
  summing, Move, take, unset_next, unset_next_sum, enter, unset_own, set_own, enter_sum,
  unset_own_sum, set_own_sum, unset_order, unset_order_sum, set_order, set_order_sum,
}
use rsj.Threads.Links.{Ensures, IsNumbered, HasUpdate, Queued, Linked, Follows}
use rsj.Threads.Defs.{
  Stage, testing, polling, clearing_next, clearing_next_sum, awaiting, clearing_own, updating,
  passing, copying, reading, returning, awaiting_sum, clearing_own_sum, storing, passing_sum,
  finished, World, update_level, copy_other, store_result, choose, advance,
}

module _ (P : Platform) (feed : ℕ → Update) where
  open P.doubles use {Double}

  order_of : (n : ℕ) (d : RsjDataIn) → IsNumbered P feed n d → place n ≡ d.order_index
  order_of n d h = sym (ap (λ (e : RsjDataIn). e.order_index) h.0)

  -- The steps of Turns at a place that is known by an equation.
  module _ (s : Shared P.sync) (n i : ℕ) (e : place n ≡ i) where
    unset_next_at : Move P.sync s (fetched n) (unset_order P.sync s (next_index i)) (half_ready n)
    unset_next_at = rw (← e) unset_next

    unset_next_sum_at :
        Move P.sync s (half_ready n) (unset_order_sum P.sync s (next_index i)) (waiting n)
    unset_next_sum_at = rw (← e) unset_next_sum

    unset_own_at : Move P.sync s (entered n) (unset_order P.sync s i) (inserting n)
    unset_own_at = rw (← e) unset_own

    set_own_at : Move P.sync s (inserting n) (set_order P.sync s i) (waiting_sum n)
    set_own_at = rw (← e) set_own

    unset_own_sum_at : Move P.sync s (entered_sum n) (unset_order_sum P.sync s i) (summing n)
    unset_own_sum_at = rw (← e) unset_own_sum

    set_own_sum_at : Move P.sync s (summing n) (set_order_sum P.sync s i) idle
    set_own_sum_at = rw (← e) set_own_sum

  -- What leaves the ring and the counter of updates alone.
  relink :
      {w : World P} {c : Context P} {i s : ℕ}
      → Linked P feed w
      → c.buffer ≡ w.context.buffer
      → c.order_index ≡ w.context.order_index
      → c.order_indices_bid ≡ w.context.order_indices_bid
      → Linked P feed (record w { context = c; inserted = i; summed = s })
  relink l b o k = record {
    queued = rw b l.queued;
    count = rw b l.count;
    counter = rw o l.counter;
    counters = λ i. rw k (l.counters i);
  }

  -- Every step of a worker is one of Turns, or none; the worker's update and the ring stay those that
  -- the producer has numbered.
  pub advance-Follows :
      (p : Stage Double) (w : World P)
      → Linked P feed w
      → HasUpdate P feed p
      → Ensures (advance P p w) (Follows P feed w p)
  unfolding advance wait_until_set_order wait_until_set_order_sum sync_set_order sync_unset_order
      sync_set_order_sum sync_unset_order_sum result update_level copy_other store_result choose
      last_fp store_fp store_sum
  advance-Follows testing w l h = elim (Bool-cases (eqb_ℤ w.context.running (pos 0))) [
    | inl e ↦ rw (e, Ensures) (inr (refl, refl), l, tt)
    | inr e ↦ rw (e, Ensures) (inr (refl, refl), l, tt)
  ]
  advance-Follows polling w l h = elim (List-cases (P.ring.contents w.context.buffer)) [
    | inl e ↦ rw (P.ring.dequeue_empty w.context.buffer e, advance, Ensures) tt
    | inr (d, rest, e) ↦
        let (r, took, left, _) = P.ring.dequeue_first w.context.buffer d rest e in
        let q : Queued P feed w.taken (d ∷ rest) = rw e at l.queued in
        let held : w.taken + length (d ∷ rest) ≡ w.sent = rw e at l.count in
        rw (took, advance, Ensures)
          (
            inl take,
            record {
              queued = rw left q.1;
              count = rw left (omega (arith, held));
              counter = l.counter;
              counters = l.counters;
            },
            q.0,
          )
  ]
  advance-Follows (clearing_next n d) w l h =
      (inl (unset_next_at _ n _ (order_of n d h)), relink l refl refl refl, h)
  advance-Follows (clearing_next_sum n d) w l h =
      (inl (unset_next_sum_at _ n _ (order_of n d h)), relink l refl refl refl, h)
  advance-Follows (awaiting n d) w l h = elim (Bool-cases (ltb d.instrument instrument_count)) [
    | inl a ↦
        elim (Bool-cases
          (ltb d.order_index history_size && ltb d.specific_index specific_history_size)) [
            | inl b ↦
                elim (Bool-cases (P.sync.is_set (w.context.order (prev_index d.order_index)))) [
                  | inl e ↦
                      rw (a, Ensures)
                        (rw (b, Ensures)
                          (rw (e, Ensures)
                            (
                              inl (
                                  enter (
                                    ap (λ k. P.sync.is_set (w.context.order (prev_index k)))
                                      (order_of n d h)
                                    ∙ e)),
                              l,
                              h,
                            )))
                  | inr e ↦ rw (a, Ensures) (rw (b, Ensures) (rw (e, Ensures) tt))
                ]
            | inr b ↦ rw (a, Ensures) (rw (b, Ensures) tt)
          ]
    | inr a ↦ rw (a, Ensures) tt
  ]
  advance-Follows (clearing_own n d) w l h =
      (inl (unset_own_at _ n _ (order_of n d h)), relink l refl refl refl, h)
  advance-Follows (updating n d) w l h = elim (Bool-cases (eqb_ℤ d.side side_buying)) [
    | inl e ↦ rw (e, Ensures) (inr (refl, refl), relink l refl refl refl, h)
    | inr e ↦ rw (e, Ensures) (inr (refl, refl), relink l refl refl refl, h)
  ]
  advance-Follows (passing n d) w l h =
      (inl (set_own_at _ n _ (order_of n d h)), relink l refl refl refl, h)
  advance-Follows (copying n d) w l h = elim (Bool-cases (eqb_ℤ d.side side_buying)) [
    | inl e ↦ rw (e, Ensures) (inr (refl, refl), relink l refl refl refl, h)
    | inr e ↦ rw (e, Ensures) (inr (refl, refl), relink l refl refl refl, h)
  ]
  advance-Follows (reading n d) w l h =
      let bid = (w.context.bids d.instrument).history d.specific_index in
      let volask = (w.context.asks d.instrument).history d.specific_index in
      elim (Bool-cases (not_enough volask bid.vol_bid bid.price_bid)) [
        | inl e ↦ rw (e, Ensures) (inr (refl, refl), l, h)
        | inr e ↦ elim (Bool-cases (is_int (bid.vol_bid +ℤ volask))) [
          | inl f ↦ rw (e, Ensures) (rw (f, Ensures) (inr (refl, refl), l, h))
          | inr f ↦ rw (e, Ensures) (rw (f, Ensures) tt)
        ]
      ]
  advance-Follows (returning n d) w l h = (inr (refl, refl), relink l refl refl refl, h)
  advance-Follows (awaiting_sum n d fp) w l h =
      elim (Bool-cases (P.sync.is_set (w.context.order_sum (prev_index d.order_index)))) [
        | inl e ↦
            rw (e, Ensures)
              (
                inl (
                    enter_sum (
                      ap (λ k. P.sync.is_set (w.context.order_sum (prev_index k))) (order_of n d h)
                      ∙ e)),
                l,
                h,
              )
        | inr e ↦ rw (e, Ensures) tt
      ]
  advance-Follows (clearing_own_sum n d fp) w l h =
      (inl (unset_own_sum_at _ n _ (order_of n d h)), relink l refl refl refl, h)
  advance-Follows (storing n d none) w l h = (inr (refl, refl), relink l refl refl refl, h)
  advance-Follows (storing n d (some fp)) w l h = (inr (refl, refl), relink l refl refl refl, h)
  advance-Follows (passing_sum n d) w l h =
      (inl (set_own_sum_at _ n _ (order_of n d h)), relink l refl refl refl, tt)
  advance-Follows finished w l h = (inr (refl, refl), l, tt)
