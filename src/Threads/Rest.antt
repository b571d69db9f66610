-- ===== src/Threads/Rest.antt =====
-- The workers finish what they have begun.
use rsj.Prelude.{ℕ, ◌+◌, ◌<◌, ◌≡◌, refl, ◌∙◌, ap, inl, inr, arith}
use rsj.Structures.{RsjDataIn}
use rsj.Helpers.{prev_index}
use rsj.Platform.{Platform}
use rsj.Producer.{Update}
use rsj.Refinement.{IsUpdate}
use rsj.Turns.Defs.{Pc, idle}
use rsj.Turns.Local.{busy, number, Inv, prev-place}
use rsj.Turns.Invariant.{Reach-Inv, swap-Inv}
use rsj.Turns.Safety.{has_first}
use rsj.Threads.Defs.{Stage, polling, awaiting, awaiting_sum, World, Threads, Reach}
use rsj.Threads.Links.{pc_of_stage, shared_of, HasUpdate}
use rsj.Threads.Goes.{remaining, IsFree, advance-Goes}
use rsj.Threads.Runs.{workers_of, Reach-Projected, Ensures-done}
use rsj.Threads.Running.{Works, left_works, right_works, SameRun, advance-SameRun}
use rsj.Threads.Volumes.{Reach-HasVolumes}

idle_of : (p : Pc) → busy p ≡ 0 → p ≡ idle
idle_of idle h = refl
idle_of p h = absurd (omega arith)

module _ (P : Platform) (feed : ℕ → Update) (v : (n : ℕ) → IsUpdate (feed n)) where
  open P.doubles use {Double}

  -- The worker with the first update whose sum is not yet stored waits for nothing.
  first-IsFree :
      (p : Stage Double) (q : Pc) (w : World P)
      → Inv P.sync (shared_of P feed w) (pc_of_stage p) q
      → busy (pc_of_stage p) ≡ 1
      → number (pc_of_stage p) ≡ w.summed
      → HasUpdate P feed p
      → IsFree P feed v p w
  first-IsFree polling q w i b e u = absurd (omega arith)
  first-IsFree (awaiting n d) q w i b e (u, _, _) =
      ap P.sync.is_set (
        ap w.context.order (
          ap (λ (x : RsjDataIn). prev_index x.order_index) u
          ∙ prev-place n
          ∙ omega (arith, e, i.ordered, i.first)))
      ∙ i.open_order
  first-IsFree (awaiting_sum n d fp) q w i b e (u, _, _) =
      ap P.sync.is_set (
        ap w.context.order_sum
          (ap (λ (x : RsjDataIn). prev_index x.order_index) u ∙ prev-place n ∙ omega (arith, e)))
      ∙ i.open_sum
  first-IsFree p q w i b e u = tt

  -- A step of one of the workers, after which less of the passes is left.
  abbrev Onward : Threads P feed → Threads P feed → Type 0
  Onward t u =
      (u.world.taken ≡ t.world.taken)
      × (u.world.sent ≡ t.world.sent)
      × (u.world.context.running ≡ t.world.context.running)
      × (remaining u.left + remaining u.right < remaining t.left + remaining t.right)

  pub onward :
      (t : Threads P feed)
      → Reach P feed t
      → 0 < busy (pc_of_stage t.left) + busy (pc_of_stage t.right)
      → (u : Threads P feed) × Works P feed t u × Onward t u
  onward t r b =
      let x = Reach-Projected P feed t r in
      let h = Reach-HasVolumes P feed v t r in
      let i = Reach-Inv P.sync (workers_of P feed t) x.reached in
      elim (has_first P.sync (shared_of P feed t.world) (pc_of_stage t.left) (pc_of_stage t.right) i
        b) [
          | inl (c, e) ↦
              let (p, w, goes, same, sent, less) =
                advance-Goes P feed v t.left t.world x.left_update h
                  (first-IsFree t.left _ t.world i c e x.left_update) in
              (
                _,
                left_works goes,
                (
                  same,
                  sent,
                  (Ensures-done (SameRun P t.world t.left) goes
                      (advance-SameRun P t.left t.world)).0,
                  (let l = less c in omega arith),
                ),
              )
          | inr (c, e) ↦
              let (p, w, goes, same, sent, less) =
                advance-Goes P feed v t.right t.world x.right_update h
                  (first-IsFree t.right _ t.world (swap-Inv P.sync _ _ _ i) c e x.right_update) in
              (
                _,
                right_works goes,
                (
                  same,
                  sent,
                  (Ensures-done (SameRun P t.world t.right) goes
                      (advance-SameRun P t.right t.world)).0,
                  (let l = less c in omega arith),
                ),
              )
        ]

  -- Both workers without an update, after the same calls of `Update`; what was taken has been summed up.
  pub record Rested (t u : Threads P feed) : Type 0 where
    pub reached : Reach P feed u
    pub left : pc_of_stage u.left ≡ idle
    pub right : pc_of_stage u.right ≡ idle
    pub sent : u.world.sent ≡ t.world.sent
    pub running : u.world.context.running ≡ t.world.context.running
    pub taken : u.world.taken ≡ t.world.taken
    pub summed : u.world.summed ≡ t.world.taken

  pub at_rest :
      (t : Threads P feed)
      → Reach P feed t
      → busy (pc_of_stage t.left) + busy (pc_of_stage t.right) ≡ 0
      → Rested t t
  at_rest t r e =
      let i = Reach-Inv P.sync (workers_of P feed t) (Reach-Projected P feed t r).reached in
      record {
        reached = r;
        left = idle_of (pc_of_stage t.left) (omega arith);
        right = idle_of (pc_of_stage t.right) (omega arith);
        sent = refl;
        running = refl;
        taken = refl;
        summed = omega (arith, i.count);
      }
