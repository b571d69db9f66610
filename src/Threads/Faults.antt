-- ===== src/Threads/Faults.antt =====
-- Nothing undefined is done, in every interleaving.
use rsj.Prelude.{ℕ, ◌≢◌, ltb, ltb_of_lt, inl, inr, Bool-cases, Option-cases}
use rsj.Structures.{instrument_count}
use rsj.Helpers.{prev_index}
use rsj.Platform.{Platform}
use rsj.Context.{Outcome, done, spins, fault}
use rsj.Worker.{wait_until_set_order, wait_until_set_order_sum}
use rsj.Worker.Waits.{and-true}
use rsj.Producer.{Update, numbered, enqueue, update_c_style}
use rsj.Refinement.{IsUpdate}
use rsj.Threads.Defs.{
  Stage, polling, awaiting, awaiting_sum, World, Threads, Reach, advance, produce,
}
use rsj.Threads.Links.{HasUpdate}
use rsj.Threads.Goes.{IsNumbered-in_bounds, Goes, advance-Goes}
use rsj.Threads.Runs.{Reach-Projected}
use rsj.Threads.Volumes.{HasVolumes, Reach-HasVolumes}

-- An outcome that is defined.
abbrev pub IsDefined : {S A : Type 0} → Outcome S A → Type 0
IsDefined (done a s) = Unit
IsDefined spins = Unit
IsDefined fault = ⊥

IsDefined-fault : {S A : Type 0} (o : Outcome S A) → IsDefined o → o ≢ fault
IsDefined-fault (done a s) h e = absurd (cc)
IsDefined-fault spins h e = absurd (cc)
IsDefined-fault fault h e = absurd h

module _ (P : Platform) (feed : ℕ → Update) (v : (n : ℕ) → IsUpdate (feed n)) where
  open P.doubles use {Double}

  Goes-no_fault : (p : Stage Double) (w : World P) → Goes P feed v p w → advance P p w ≢ fault
  Goes-no_fault p w (p', w', e, _, _, _) f = absurd (cc)

  advance-no_fault :
      (p : Stage Double) (w : World P)
      → HasUpdate P feed p
      → HasVolumes P w.context
      → advance P p w ≢ fault
  unfolding advance wait_until_set_order wait_until_set_order_sum
  advance-no_fault polling w u h = elim (Option-cases (P.ring.dequeue_spmc w.context.buffer)) [
    | inl e ↦ IsDefined-fault _ (rw (e, advance, IsDefined) tt)
    | inr ((d, rest), e) ↦ IsDefined-fault _ (rw (e, advance, IsDefined) tt)
  ]
  advance-no_fault (awaiting n d) w u h =
      elim (Bool-cases (P.sync.is_set (w.context.order (prev_index d.order_index)))) [
        | inl e ↦ Goes-no_fault (awaiting n d) w (advance-Goes P feed v (awaiting n d) w u h e)
        | inr e ↦ IsDefined-fault (advance P (awaiting n d) w) (
            let (a, b) =
              and-true (ltb d.instrument instrument_count) _
                (IsNumbered-in_bounds P feed v n d u) in
            rw (a, IsDefined) (rw (b, IsDefined) (rw (e, IsDefined) tt)))
      ]
  advance-no_fault (awaiting_sum n d fp) w u h =
      elim (Bool-cases (P.sync.is_set (w.context.order_sum (prev_index d.order_index)))) [
        | inl e ↦
            Goes-no_fault (awaiting_sum n d fp) w
              (advance-Goes P feed v (awaiting_sum n d fp) w u h e)
        | inr e ↦ IsDefined-fault (advance P (awaiting_sum n d fp) w) (rw (e, IsDefined) tt)
      ]
  advance-no_fault p w u h = Goes-no_fault p w (advance-Goes P feed v p w u h tt)

  produce-no_fault : (w : World P) → produce P feed w ≢ fault
  unfolding produce update_c_style enqueue numbered
  produce-no_fault w =
      let u = feed w.sent in
      let i = ltb_of_lt u.instrument instrument_count (v w.sent).instrument in
      elim (Option-cases (P.ring.enqueue_spmc w.context.buffer (numbered P u w.context))) [
        | inl e ↦ IsDefined-fault _ (rw (i, IsDefined) (rw (e, IsDefined) tt))
        | inr (r, e) ↦ IsDefined-fault _ (rw (i, IsDefined) (rw (e, IsDefined) tt))
      ]

  -- Nothing undefined is done: in every reachable state, with updates within the bounds, neither the next
  -- call of `Update` nor the next step of a worker goes out of the bounds of an array or adds volumes
  -- to more than an `int`.
  pub no_fault :
      (t : Threads P feed)
      → Reach P feed t
      → (produce P feed t.world ≢ fault)
        × (advance P t.left t.world ≢ fault)
        × (advance P t.right t.world ≢ fault)
  no_fault t r =
      let x = Reach-Projected P feed t r in
      let h = Reach-HasVolumes P feed v t r in
      (
        produce-no_fault t.world,
        advance-no_fault t.left t.world x.left_update h,
        advance-no_fault t.right t.world x.right_update h,
      )
