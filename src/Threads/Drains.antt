-- ===== src/Threads/Drains.antt =====
-- When all updates that were sent are handled, and how a worker comes to the next (worker.cc).
use rsj.Prelude.{ℕ, ◌+◌, ◌≡◌, refl, ◌∙◌, [], some, inl, inr, ◌⊎◌, arith}
use rsj.Structures.{RsjDataIn}
use rsj.Platform.{Platform}
use rsj.Context.{done}
use rsj.Producer.{Update}
use rsj.Refinement.{IsUpdate}
use rsj.Turns.Defs.{idle}
use rsj.Threads.Defs.{
  Stage, testing, polling, clearing_next, finished, World, advance, Threads, Reach,
}
use rsj.Threads.Links.{pc_of_stage}
use rsj.Threads.Runs.{Reach-Projected}
use rsj.Threads.Running.{IsLive, IsRunning}
use rsj.Threads.Rest.{Rested}

module _ (P : Platform) (feed : ℕ → Update) where
  open P.doubles use {Double}

  -- A reachable state after the same calls of `Update`, with `running` as it was.
  pub record After (t u : Threads P feed) : Type 0 where
    pub reached : Reach P feed u
    pub sent : u.world.sent ≡ t.world.sent
    pub running : u.world.context.running ≡ t.world.context.running

  pub trans-After : {s t u : Threads P feed} → After s t → After t u → After s u
  trans-After a b = record {
    reached = b.reached;
    sent = b.sent ∙ a.sent;
    running = b.running ∙ a.running;
  }

  -- An idle worker in the loop gets to the dequeue.
  pub polls :
      (p : Stage Double) (w : World P)
      → pc_of_stage p ≡ idle
      → IsLive p
      → IsRunning P w.context
      → (p ≡ polling) ⊎ (advance P p w ≡ done polling w)
  unfolding advance
  polls testing w e l i = inr (rw i refl)
  polls polling w e l i = inl refl
  polls finished w e l i = absurd l
  polls p w e l i = absurd (cc)

  -- The worker at the dequeue takes the first update of the ring.
  pub takes_first :
      (p : Stage Double) (w : World P) (d : RsjDataIn) (r : P.ring.Ring)
      → p ≡ polling
      → P.ring.dequeue_spmc w.context.buffer ≡ some (d, r)
      → advance P p w
        ≡ done
            (clearing_next w.taken d)
            (record w { context = record w.context { buffer = r }; taken = w.taken + 1 })
  unfolding advance
  takes_first p w d r e took = rw e (rw (took, advance) refl)

  module _ (v : (n : ℕ) → IsUpdate (feed n)) where
    -- All updates that were sent are handled.
    pub record Drained (t u : Threads P feed) : Type 0 where
      pub after : After t u
      pub left : pc_of_stage u.left ≡ idle
      pub right : pc_of_stage u.right ≡ idle
      pub empty : P.ring.contents u.world.context.buffer ≡ []
      pub summed : u.world.summed ≡ t.world.sent

    Rested-After : (t u : Threads P feed) → Rested P feed v t u → After t u
    Rested-After t u k = record { reached = k.reached; sent = k.sent; running = k.running }

    pub Rested-Drained :
        (t s q : Threads P feed)
        → After t s
        → Rested P feed v s q
        → P.ring.contents q.world.context.buffer ≡ []
        → Drained t q
    Rested-Drained t s q a k e =
        let b = trans-After a (Rested-After s q k) in
        let held : q.world.taken + 0 ≡ q.world.sent =
          rw e at (Reach-Projected P feed q k.reached).linked.count in
        record {
          after = b;
          left = k.left;
          right = k.right;
          empty = e;
          summed = omega (arith, held, k.summed, k.taken, b.sent);
        }
