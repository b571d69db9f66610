-- ===== src/Threads/Bound.antt =====
-- How many steps the workers make without a further update (worker.cc): they come to an end in any order.
use rsj.Prelude.{
  ℕ, suc, ◌+◌, ◌*◌, ◌<◌, ◌≤◌, ◌≡◌, refl, ◌∙◌, Bool, true, false, none, some, inl, inr, ◌⊎◌,
  List-cases, length, arith,
}
use native.Mathlib.Decide.{ℕ_discrete}
use rsj.Platform.{Platform}
use rsj.Worker.{
  sync_set_order, sync_unset_order, sync_set_order_sum, sync_unset_order_sum, result, store_fp,
  store_sum,
}
use rsj.Producer.{Update}
use rsj.Refinement.{IsUpdate}
use rsj.Turns.Local.{busy}
use rsj.Threads.Defs.{
  Stage, testing, polling, clearing_next, clearing_next_sum, awaiting, clearing_own, updating,
  passing, copying, reading, returning, awaiting_sum, clearing_own_sum, storing, passing_sum,
  finished, World, store_result, advance, Threads, Reach, later,
}
use rsj.Threads.Links.{Ensures, pc_of_stage}
use rsj.Threads.Cases.{Outcomes, advance-cases}
use rsj.Threads.Runs.{Ensures-done}
use rsj.Threads.Running.{
  Works, left_works, right_works, step_of, IsLive, IsRunning, SameRun, advance-SameRun,
  Reach-IsLive,
}
use rsj.Threads.Rest.{onward, at_rest}
use rsj.Threads.Drains.{After, Drained, Rested-Drained, polls, takes_first}

-- At most so many steps until the worker waits for an update.
abbrev pub until_poll : {Double : Type 0} → Stage Double → ℕ
until_poll testing = 1
until_poll polling = 0
until_poll (clearing_next n d) = 14
until_poll (clearing_next_sum n d) = 13
until_poll (awaiting n d) = 12
until_poll (clearing_own n d) = 11
until_poll (updating n d) = 10
until_poll (passing n d) = 9
until_poll (copying n d) = 8
until_poll (reading n d) = 7
until_poll (returning n d) = 6
until_poll (awaiting_sum n d fp) = 5
until_poll (clearing_own_sum n d fp) = 4
until_poll (storing n d fp) = 3
until_poll (passing_sum n d) = 2
until_poll finished = 0

abbrev in_pass : {Double : Type 0} → Stage Double → Bool
in_pass testing = false
in_pass polling = false
in_pass finished = false
in_pass p = true

module _ (P : Platform) where
  open P.doubles use {Double}

  -- A pass takes 14 steps, and one takes the update.
  abbrev queue_load : World P → ℕ
  queue_load w = 15 * length (P.ring.contents w.context.buffer)

  abbrev Less : World P → Stage Double → Stage Double → World P → Type 0
  Less w p p' w' = until_poll p' + queue_load w' < until_poll p + queue_load w

  fewer_left : (p : Stage Double) (w : World P) → in_pass p ≡ true → Outcomes P p w (Less w p)
  unfolding advance sync_set_order sync_unset_order sync_set_order_sum sync_unset_order_sum result
      store_result store_fp store_sum
  fewer_left testing w t = absurd (cc)
  fewer_left polling w t = absurd (cc)
  fewer_left finished w t = absurd (cc)
  fewer_left (updating n d) w t = (λ b. omega arith, λ a. omega arith)
  fewer_left (copying n d) w t = (λ b. omega arith, λ a. omega arith)
  fewer_left (reading n d) w t = (omega arith, λ x. omega arith)
  fewer_left (storing n d none) w t = omega arith
  fewer_left (storing n d (some fp)) w t = omega arith
  fewer_left p w t = omega arith

  advance-Less :
      (p : Stage Double) (w : World P)
      → IsLive p
      → IsRunning P w.context
      → Ensures (advance P p w) (Less w p)
  unfolding advance
  advance-Less testing w l i = rw (i, Ensures) (omega arith)
  advance-Less polling w l i = elim (List-cases (P.ring.contents w.context.buffer)) [
    | inl e ↦ rw (P.ring.dequeue_empty w.context.buffer e, advance, Ensures) tt
    | inr (d, rest, e) ↦
        let (r, took, left, _) = P.ring.dequeue_first w.context.buffer d rest e in
        rw (took, advance, Ensures) (rw (left, e) (omega arith))
  ]
  advance-Less finished w l i = absurd l
  advance-Less p w l i = advance-cases P p w (Less w p) (fewer_left p w refl)

  module _ (feed : ℕ → Update) where
    -- At most so many steps of the workers are left.
    abbrev pub load : Threads P feed → ℕ
    load t = until_poll t.left + until_poll t.right + queue_load t.world

    -- So many steps of the workers, in any order, without a call of `Update` or of the destructor.
    pub data Run (t : Threads P feed) : ℕ → Threads P feed → Type 0 where
      no_step : Run t 0 t
      one_more : {n : ℕ} {u x : Threads P feed} → Run t n u → Works P feed u x → Run t (suc n) x

    pub Works-Less :
        (t u : Threads P feed)
        → Reach P feed t
        → IsRunning P t.world.context
        → Works P feed t u
        → (load u < load t)
          × (u.world.sent ≡ t.world.sent)
          × (u.world.context.running ≡ t.world.context.running)
    Works-Less t u r i (left_works e) =
        let less =
          Ensures-done (Less t.world t.left) e
            (advance-Less t.left t.world (Reach-IsLive P feed t r i).0 i) in
        let (same, sent, _) =
          Ensures-done (SameRun P t.world t.left) e (advance-SameRun P t.left t.world) in
        (omega (arith, less), sent, same)
    Works-Less t u r i (right_works e) =
        let less =
          Ensures-done (Less t.world t.right) e
            (advance-Less t.right t.world (Reach-IsLive P feed t r i).1 i) in
        let (same, sent, _) =
          Ensures-done (SameRun P t.world t.right) e (advance-SameRun P t.right t.world) in
        (omega (arith, less), sent, same)

    Run-After :
        (t : Threads P feed)
        → Reach P feed t
        → IsRunning P t.world.context
        → (n : ℕ) (u : Threads P feed) → Run t n u
        → After P feed t u × (n + load u ≤ load t)
    Run-After t r i n u no_step = (record { reached = r; sent = refl; running = refl }, omega arith)
    Run-After t r i (suc n) x (one_more {u = u} run w) =
        let (a, le) = Run-After t r i n u run in
        let (less, sent, same) = Works-Less u x a.reached (rw a.running i) w in
        (
          record {
            reached = later a.reached (step_of P feed w);
            sent = sent ∙ a.sent;
            running = same ∙ a.running;
          },
          omega (arith, le, less),
        )

    module _ (v : (n : ℕ) → IsUpdate (feed n)) where
      -- A worker has a step, or everything is handled.
      pub moves_unless_empty :
          (u : Threads P feed)
          → Reach P feed u
          → IsRunning P u.world.context
          → ((x : Threads P feed) × Works P feed u x) ⊎ Drained P feed v u u
      unfolding advance
      moves_unless_empty u r i =
          elim (ℕ_discrete (busy (pc_of_stage u.left) + busy (pc_of_stage u.right)) 0) [
            | yes none_busy ↦
                let k = at_rest P feed v u r none_busy in
                elim (polls P feed u.left u.world k.left (Reach-IsLive P feed u r i).0 i) [
                  | inl p ↦ elim (List-cases (P.ring.contents u.world.context.buffer)) [
                    | inl e ↦ inr (
                        Rested-Drained P feed v u u u
                          (record { reached = r; sent = refl; running = refl }) k e)
                    | inr (d, rest, e) ↦
                        let (ring, took, _, _) =
                          P.ring.dequeue_first u.world.context.buffer d rest e in
                        inl (_, left_works (takes_first P feed u.left u.world d ring p took))
                  ]
                  | inr e ↦ inl (_, left_works e)
                ]
            | no some_busy ↦
                let (x, w, _) = onward P feed v u r (omega (arith, some_busy)) in inl (x, w)
          ]

      -- In whatever order the workers move, they finish: from every reachable state in which `running` is
      -- set, with updates within the bounds, they make at most `load` steps without a further update;
      -- and after any of these steps one of them has a step, or the ring is empty, neither worker
      -- has an update and the sums of all updates that were sent are stored.
      pub workers_finish :
          (n : ℕ) (t u : Threads P feed)
          → Reach P feed t
          → IsRunning P t.world.context
          → Run t n u
          → (n ≤ load t) × (((x : Threads P feed) × Works P feed u x) ⊎ Drained P feed v t u)
      workers_finish n t u r i run =
          let (a, le) = Run-After t r i n u run in
          (
            omega (arith, le),
            elim (moves_unless_empty u a.reached (rw a.running i)) [
              | inl more ↦ inl more
              | inr k ↦ inr (record {
                after = a;
                left = k.left;
                right = k.right;
                empty = k.empty;
                summed = k.summed ∙ a.sent;
              })
            ],
          )
