-- ===== src/Threads/Whole.antt =====
-- What the books, the readings, the sums and the results keep in every step (worker.cc, worker.h,
-- table.h), for updates of which no two neighbours are of the same instrument.
use rsj.Prelude.{ℕ, ◌+◌, ◌≡◌, refl, subst, [], arith}
use mathlib.Core.List.Perm
use rsj.Platform.{Platform}
use rsj.Context.{done}
use rsj.Init.{initialize_c_style}
use rsj.Producer.{Update}
use rsj.Market.{opening}
use rsj.OrderBook.{best_bid, best_ask, highest, lowest}
use rsj.Refinement.{IsUpdate}
use rsj.Turns.Local.{Inv}
use rsj.Turns.Invariant.{Reach-Inv, swap-Inv}
use rsj.Threads.Defs.{
  Stage, testing, World, reading, advance, Threads, produces, stops, left_moves, right_moves, Reach,
  here, later, begin, destructor_c_style,
}
use rsj.Structures.{RsjDataIn}
use rsj.Threads.Links.{pc_of_stage, shared_of, HasUpdate}
use rsj.Threads.Frame.{pending, lagging, Keeps, produce-Keeps}
use rsj.Threads.Runs.{workers_of, Reach-Projected, Ensures-done}
use rsj.Threads.Order.{books_after, Booked}
use rsj.Threads.Safety.{books_in_order, swap_pending}
use rsj.Threads.Histories.{same-Current}
use rsj.Threads.Lags.{Alternates, bid_place-swap, ask_place-swap}
use rsj.Threads.Neighbours.{Ready, stage-Ready}
use rsj.Threads.Readings.{Shown, ShownAt, advance-Shown}
use rsj.Threads.Verdicts.{Judged, ReadsBest, reads_best, advance-Judged}
use rsj.Threads.Totals.{market_after}
use rsj.Threads.Told.{pending_sum, early, TotalsStay, produce-TotalsStay}
use rsj.Threads.Sums.{Sums}
use rsj.Threads.Totalled.{
  Tells, Totalled, perm_swap, stage-SumReady, stay-Totalled, advance-Totalled,
}

module _ (P : Platform) (feed : ℕ → Update) (alternates : Alternates feed)
    (v : (n : ℕ) → IsUpdate (feed n)) where
  open P.doubles use {Double}

  -- The state seen from the worker at `p`, with the other at `q`.
  pub record Right (p q : Stage Double) (w : World P) : Type 0 where
    pub shown : Shown P feed alternates (pending q) (lagging q) p w
    pub judged : Judged P feed p
    pub other_judged : Judged P feed q
    pub totalled : Totalled P feed (pending_sum q) (early P q) p w

  pub swap-Right : (p q : Stage Double) (w : World P) → Right p q w → Right q p w
  swap-Right p q w h =
      let books : w.inserted + pending p + pending q ≡ w.inserted + pending q + pending p =
        omega arith in
      let sums : w.summed + pending_sum p + pending_sum q
          ≡ w.summed + pending_sum q + pending_sum p =
        omega arith in
      record {
        shown =
            subst (λ k. ShownAt P feed alternates k (lagging q) (lagging p) w) books
              (same-Current P h.shown (bid_place-swap feed _ (lagging p) (lagging q))
                (ask_place-swap feed _ (lagging p) (lagging q)) refl refl);
        judged = h.other_judged;
        other_judged = h.judged;
        totalled =
            subst (λ k. Sums P feed k w.context × Tells P feed k (early P q) (early P p) w.context)
              sums (h.totalled.0, Perm.trans h.totalled.1 (perm_swap (early P p) (early P q) _));
      }

  begin-Right : Right testing testing (begin P feed).world
  unfolding initialize_c_style books_after market_after opening best_bid best_ask highest lowest
  begin-Right = record {
    shown = record { bids = λ i. refl; asks = λ i. refl };
    judged = tt;
    other_judged = tt;
    totalled = (record { total = refl; fp = λ i. refl }, Perm.rfl);
  }

  move-Right :
      (p q p' : Stage Double) (w w' : World P)
      → Inv P.sync (shared_of P feed w) (pc_of_stage p) (pc_of_stage q)
      → HasUpdate P feed p
      → Booked P feed (pending q) p w
      → Right p q w
      → advance P p w ≡ done p' w'
      → Right p' q w'
  move-Right p q p' w w' i u held h e =
      let ready = stage-Ready P feed alternates p q w i u in
      record {
        shown =
            Ensures-done (Shown P feed alternates (pending q) (lagging q)) e
              (advance-Shown P feed alternates v p w (pending q) (lagging q) ready held h.shown);
        judged =
            Ensures-done (λ x y. Judged P feed x) e
              (advance-Judged P feed alternates p w (pending q) (lagging q) ready h.shown h.judged);
        other_judged = h.other_judged;
        totalled = Ensures-done (Totalled P feed (pending_sum q) (early P q)) e (
            advance-Totalled P feed p w (pending_sum q) (early P q)
              (stage-SumReady P feed p q w i u) h.judged h.totalled);
      }

  produce-Right :
      (p q : Stage Double) (w w' : World P)
      → Keeps P w p p w'
      → TotalsStay P w p p w'
      → Right p q w
      → Right p q w'
  produce-Right p q w w' (b, a, n, l) stay h = record {
    shown =
        subst (λ k. ShownAt P feed alternates (k + pending q) (lagging p) (lagging q) w') n
          (same-Current P h.shown (λ i. refl) (λ i. refl) b a);
    judged = h.judged;
    other_judged = h.other_judged;
    totalled = stay-Totalled P feed p p w w' (pending_sum q) (early P q) stay h.totalled;
  }

  pub Reach-Right : (t : Threads P feed) → Reach P feed t → Right t.left t.right t.world
  unfolding destructor_c_style
  Reach-Right t here = begin-Right
  Reach-Right t (later {t = s} r (produces e)) =
      produce-Right s.left s.right s.world t.world
        (Ensures-done (λ _ w. Keeps P s.world s.left s.left w) e
          (produce-Keeps P feed s.world s.left))
        (Ensures-done (λ _ w. TotalsStay P s.world s.left s.left w) e
          (produce-TotalsStay P feed s.world s.left))
        (Reach-Right s r)
  Reach-Right t (later {t = s} r (stops e)) =
      Ensures-done (λ _ c. Right s.left s.right (record s.world { context = c })) e
        (produce-Right s.left s.right s.world _ (refl, refl, refl, refl)
          (refl, refl, refl, [], refl, refl) (Reach-Right s r))
  Reach-Right t (later {t = s} r (left_moves e)) =
      let x = Reach-Projected P feed s r in
      move-Right s.left s.right t.left s.world t.world
        (Reach-Inv P.sync (workers_of P feed s) x.reached) x.left_update
        (books_in_order P feed s v r) (Reach-Right s r) e
  Reach-Right t (later {t = s} r (right_moves e)) =
      let x = Reach-Projected P feed s r in
      let i = Reach-Inv P.sync (workers_of P feed s) x.reached in
      swap-Right t.right s.left t.world (
        move-Right s.right s.left t.right s.world t.world (swap-Inv P.sync _ _ _ i) x.right_update
          (swap_pending P feed s.right s.left s.world (books_in_order P feed s v r))
          (swap-Right s.left s.right s.world (Reach-Right s r)) e)

  pub reads_first :
      (p q : Stage Double) (n : ℕ) (d : RsjDataIn) (w : World P)
      → Inv P.sync (shared_of P feed w) (pc_of_stage p) (pc_of_stage q)
      → HasUpdate P feed p
      → Right p q w
      → p ≡ reading n d
      → ReadsBest P feed n d w.context
  reads_first p q n d w i u h e =
      reads_best P feed alternates n d w (pending q) (lagging q)
        (subst (λ x. Ready P feed alternates x w (pending q) (lagging q)) e
          (stage-Ready P feed alternates p q w i u))
        (subst (λ x. Shown P feed alternates (pending q) (lagging q) x w) e h.shown)
