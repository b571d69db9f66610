-- ===== src/Threads/Room.antt =====
-- There is a place in the ring for the next update, once the ring is empty (worker.h, worker.cc).
use rsj.Prelude.{
  ℕ, ◌+◌, ◌%◌, ◌^◌, write, ◌≡◌, refl, ◌∙◌, Bool, true, false, none, some, inl, inr, [], List-cases,
  Bool-cases, Option-cases, ltb, ltb_of_lt, arith,
}
use rsj.Structures.{instrument_count}
use rsj.Platform.{Platform}
use rsj.Context.{done}
use rsj.Worker.{
  sync_set_order, sync_unset_order, sync_set_order_sum, sync_unset_order_sum, result, store_fp,
  store_sum,
}
use rsj.Init.{initialize_c_style}
use rsj.Producer.{Update, numbered, update_c_style, enqueue}
use rsj.Refinement.{IsUpdate}
use rsj.Threads.Defs.{
  Stage, testing, polling, updating, copying, reading, storing, World, store_result, advance,
  produce, destructor_c_style, Threads, produces, stops, left_moves, right_moves, Reach, here,
  later,
}
use rsj.Threads.Links.{Ensures}
use rsj.Threads.Cases.{Outcomes, advance-cases}
use rsj.Threads.Runs.{Ensures-done}

abbrev is_polling : {Double : Type 0} → Stage Double → Bool
is_polling polling = true
is_polling p = false

module _ (P : Platform) where
  open P.doubles use {Double}

  abbrev pub HasRoom : World P → Type 0
  HasRoom w = P.ring.capacity w.context.buffer ≡ 1

  room_each :
      (p : Stage Double) (w : World P)
      → is_polling p ≡ false
      → HasRoom w
      → Outcomes P p w (λ p' w'. HasRoom w')
  unfolding advance sync_set_order sync_unset_order sync_set_order_sum sync_unset_order_sum result
      store_result store_fp store_sum
  room_each polling w t h = absurd (cc)
  room_each testing w t h = (h, h)
  room_each (updating n d) w t h = (λ b. h, λ a. h)
  room_each (copying n d) w t h = (λ b. h, λ a. h)
  room_each (reading n d) w t h = (h, λ x. h)
  room_each (storing n d none) w t h = h
  room_each (storing n d (some fp)) w t h = h
  room_each p w t h = h

  advance-HasRoom :
      (p : Stage Double) (w : World P) → HasRoom w → Ensures (advance P p w) (λ _ w'. HasRoom w')
  unfolding advance
  advance-HasRoom polling w h = elim (List-cases (P.ring.contents w.context.buffer)) [
    | inl e ↦ rw (P.ring.dequeue_empty w.context.buffer e, advance, Ensures) tt
    | inr (d, rest, e) ↦
        let (r, took, left, same) = P.ring.dequeue_first w.context.buffer d rest e in
        rw (took, advance, Ensures) (same ∙ h)
  ]
  advance-HasRoom p w h = advance-cases P p w (λ p' w'. HasRoom w') (room_each p w refl h)

  module _ (feed : ℕ → Update) where
    produce-HasRoom : (w : World P) → HasRoom w → Ensures (produce P feed w) (λ _ w'. HasRoom w')
    unfolding produce update_c_style enqueue
    produce-HasRoom w h =
        let u = feed w.sent in
        elim (Bool-cases (ltb u.instrument instrument_count)) [
          | inl a ↦
              elim (Option-cases (P.ring.enqueue_spmc w.context.buffer (numbered P u w.context))) [
                | inl e ↦ rw (a, Ensures) (rw (e, Ensures) tt)
                | inr (r, e) ↦
                    let (_, same) = P.ring.enqueue_some w.context.buffer _ r e in
                    rw (a, Ensures) (rw (e, Ensures) (same ∙ h))
              ]
          | inr a ↦ rw (a, Ensures) tt
        ]

    pub Reach-HasRoom : (t : Threads P feed) → Reach P feed t → HasRoom t.world
    unfolding destructor_c_style initialize_c_style
    Reach-HasRoom t here = P.ring.capacity-init 2
    Reach-HasRoom t (later {t = s} r (produces e)) =
        Ensures-done (λ _ w. HasRoom w) e (produce-HasRoom s.world (Reach-HasRoom s r))
    Reach-HasRoom t (later {t = s} r (stops e)) =
        Ensures-done (λ _ c. P.ring.capacity c.buffer ≡ 1) e (Reach-HasRoom s r)
    Reach-HasRoom t (later {t = s} r (left_moves e)) =
        Ensures-done (λ _ w. HasRoom w) e (advance-HasRoom s.left s.world (Reach-HasRoom s r))
    Reach-HasRoom t (later {t = s} r (right_moves e)) =
        Ensures-done (λ _ w. HasRoom w) e (advance-HasRoom s.right s.world (Reach-HasRoom s r))

    module _ (v : (n : ℕ) → IsUpdate (feed n)) where
      -- With the ring empty, a call of `Update` returns.
      pub sends :
          (w : World P)
          → HasRoom w
          → P.ring.contents w.context.buffer ≡ []
          → (w' : World P) × (produce P feed w ≡ done tt w')
            × (w'.sent ≡ w.sent + 1)
            × (w'.context.running ≡ w.context.running)
      unfolding produce update_c_style enqueue
      sends w h e =
          let u = feed w.sent in
          let (r, put) =
            P.ring.enqueue_room w.context.buffer (numbered P u w.context)
              (rw (e, h) (omega arith)) in
          (
            record w {
              context = record w.context {
                order_index = (w.context.order_index + 1) % 2 ^ 32;
                order_indices_bid =
                    write w.context.order_indices_bid u.instrument
                      ((w.context.order_indices_bid u.instrument + 1) % 2 ^ 32);
                buffer = r;
              };
              sent = w.sent + 1;
            },
            rw (ltb_of_lt u.instrument instrument_count (v w.sent).instrument, produce)
                (rw put refl),
            refl,
            refl,
          )
