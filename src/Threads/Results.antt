-- ===== src/Threads/Results.antt =====
-- The results of the two workers and the market (worker.cc, worker.h, table.h), for updates of which no
-- two neighbours are of the same instrument.
use rsj.Prelude.{ℕ, ◌+◌, ◌≤◌, ◌≡◌, ◌⊎◌, inl, inr, refl, [], Bool, true, false, ◌++◌, arith}
use mathlib.Core.List.{Perm}
use rsj.Platform.{Platform}
use rsj.Producer.{Update}
use rsj.Refinement.{IsUpdate}
use rsj.Turns.Defs.{idle}
use rsj.Turns.Invariant.{Reach-Inv, swap-Inv}
use rsj.Threads.Defs.{Stage, testing, polling, finished, reading, Threads, Reach}
use rsj.Structures.{RsjDataIn}
use rsj.Threads.Links.{pc_of_stage}
use rsj.Threads.Runs.{workers_of, Reach-Projected}
use rsj.Threads.Lags.{Alternates}
use rsj.Threads.Verdicts.{ReadsBest}
use rsj.Threads.Totals.{market_after}
use rsj.Threads.Told.{pending_sum, early}
use rsj.Threads.Sums.{Sums}
use rsj.Threads.Running.{IsRunning, Works}
use rsj.Threads.Bound.{load, Run, workers_finish}
use rsj.Threads.Whole.{swap-Right, Reach-Right, reads_first}

module _ (P : Platform) (feed : ℕ → Update) (alternates : Alternates feed)
    (v : (n : ℕ) → IsUpdate (feed n)) where
  open P.doubles use {Double}

  -- One of the two workers.
  abbrev pub stage_of : Threads P feed → Bool → Stage Double
  stage_of t true = t.left
  stage_of t false = t.right

  -- In every reachable state the sum that was stored last, and every value of fp at the place of its
  -- instrument's last update, are those of the market after the updates whose sums are stored; and the
  -- results that the consumer was told are, in some order, those of the market after these updates,
  -- and a result without enough data for each worker that has told one and not stored its sum. The
  -- updates are within the bounds, and no two neighbours are of the same instrument.
  pub results_told :
      (t : Threads P feed)
      → Reach P feed t
      → Sums P feed (t.world.summed + pending_sum t.left + pending_sum t.right) t.world.context
        × Perm t.world.context.results (
            early P t.left
            ++ (early P t.right
                ++ (market_after P feed
                    (t.world.summed + pending_sum t.left + pending_sum t.right)).results))
  results_told t r = (Reach-Right P feed alternates v t r).totalled

  -- In every reachable state a worker that is about to read the best levels finds those of the market's
  -- books after its own update. The updates are within the bounds, and no two neighbours are of the
  -- same instrument.
  pub reads_own :
      (t : Threads P feed) (is_left : Bool) (n : ℕ) (d : RsjDataIn)
      → Reach P feed t
      → stage_of t is_left ≡ reading n d
      → ReadsBest P feed n d t.world.context
  reads_own t true n d r e =
      reads_first P feed alternates v t.left t.right n d t.world
        (Reach-Inv P.sync (workers_of P feed t) (Reach-Projected P feed t r).reached)
        (Reach-Projected P feed t r).left_update (Reach-Right P feed alternates v t r) e
  reads_own t false n d r e =
      reads_first P feed alternates v t.right t.left n d t.world
        (swap-Inv P.sync _ _ _
          (Reach-Inv P.sync (workers_of P feed t) (Reach-Projected P feed t r).reached))
        (Reach-Projected P feed t r).right_update
        (swap-Right P feed alternates v t.left t.right t.world
          (Reach-Right P feed alternates v t r))
        e

  idle_sum : (p : Stage Double) → pc_of_stage p ≡ idle → (pending_sum p ≡ 0) × (early P p ≡ [])
  idle_sum testing e = (refl, refl)
  idle_sum polling e = (refl, refl)
  idle_sum finished e = (refl, refl)
  idle_sum p e = absurd (cc)

  -- At rest the results are complete: in a reachable state in which neither worker has an update and the
  -- ring is empty, the consumer was told the market's results of all updates that were sent, in some
  -- order, each once. The updates are within the bounds, and no two neighbours are of the same
  -- instrument.
  pub results_at_rest :
      (t : Threads P feed)
      → Reach P feed t
      → pc_of_stage t.left ≡ idle
      → pc_of_stage t.right ≡ idle
      → P.ring.contents t.world.context.buffer ≡ []
      → Perm t.world.context.results (market_after P feed t.world.sent).results
  results_at_rest t r l q e =
      let x = Reach-Projected P feed t r in
      let inv = Reach-Inv P.sync (workers_of P feed t) x.reached in
      let (a, f) = idle_sum t.left l in
      let (b, g) = idle_sum t.right q in
      let held : t.world.taken + 0 ≡ t.world.sent = rw e at x.linked.count in
      let count : t.world.taken ≡ t.world.summed + 0 + 0 = rw (l, q) at inv.count in
      let all : t.world.summed + pending_sum t.left + pending_sum t.right ≡ t.world.sent =
        omega (arith, a, b, held, count) in
      rw all at (rw (f, g) at (results_told t r).1)

  -- Every update is answered, in whatever order the workers move: from every reachable state in which
  -- `running` is set, they make at most `load` steps without a further update; and after any of
  -- these steps one of them has a step, or the consumer was told the market's results of all
  -- updates that were sent, in some order, each once. The updates are within the bounds, and no
  -- two neighbours are of the same instrument.
  pub all_answered :
      (n : ℕ) (t u : Threads P feed)
      → Reach P feed t
      → IsRunning P t.world.context
      → Run P feed t n u
      → (n ≤ load P feed t)
        × (((x : Threads P feed) × Works P feed u x)
            ⊎ Perm u.world.context.results (market_after P feed t.world.sent).results)
  all_answered n t u r i run =
      let (bound, end) = workers_finish P feed v n t u r i run in
      (
        bound,
        elim end [
          | inl more ↦ inl more
          | inr k ↦
              inr (rw k.after.sent at (results_at_rest u k.after.reached k.left k.right k.empty))
        ],
      )
