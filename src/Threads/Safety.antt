-- ===== src/Threads/Safety.antt =====
-- What holds in every state that the producer and the two workers can reach.
use rsj.Prelude.{ℕ, ◌+◌, ◌≡◌, refl, subst, [], Bool, true, false, ◌&&◌, arith}
use rsj.Platform.{Platform}
use rsj.Init.{initialize_c_style}
use rsj.Producer.{Update}
use rsj.Refinement.{IsUpdate}
use rsj.Turns.Defs.{idle}
use rsj.Turns.Local.{number}
use rsj.Turns.Invariant.{Reach-Inv}
use rsj.Turns.Safety.{in_insertion, mutual_exclusion, insertion_in_order}
use rsj.Threads.Defs.{
  Stage, updating, passing, World, Threads, Step, produces, stops, left_moves, right_moves, Reach,
  here, later, advance, destructor_c_style,
}
use rsj.Threads.Links.{Ensures-map, pc_of_stage, HasUpdate}
use rsj.Threads.Runs.{workers_of, Projected, Reach-Projected, Ensures-done}
use rsj.Threads.Books.{HoldsBooks, initialize-HoldsBooks, same-HoldsBooks}
use rsj.Threads.Frame.{pending, Keeps, produce-Keeps}
use rsj.Threads.Order.{books_after, HasTurn, Booked, advance-Booked}

not_pending :
    {Double : Type 0} (q : Stage Double) → in_insertion (pc_of_stage q) ≡ false → pending q ≡ 0
not_pending (passing n d) h = absurd (cc)
not_pending q h = refl

other_out : (a b : Bool) → (a && b) ≡ false → a ≡ true → b ≡ false
other_out true b h e = h
other_out false b h e = absurd (cc)

and_swap : (a b : Bool) → (a && b) ≡ false → (b && a) ≡ false
and_swap true b h = ground (arith, h)
and_swap false true h = refl
and_swap false false h = refl

module _ (P : Platform) (feed : ℕ → Update) where
  open P.doubles use {Double}

  turn-HasTurn :
      (p q : Stage Double) (w : World P)
      → HasUpdate P feed p
      → (in_insertion (pc_of_stage p) ≡ true → in_insertion (pc_of_stage q) ≡ false)
      → (in_insertion (pc_of_stage p) ≡ true → number (pc_of_stage p) ≡ w.inserted)
      → HasTurn P feed p w (pending q)
  turn-HasTurn (updating n d) q w h alone next = (h, next refl, not_pending q (alone refl))
  turn-HasTurn p q w h alone next = tt

  pub swap_pending :
      (p q : Stage Double) (w : World P)
      → Booked P feed (pending p) q w
      → Booked P feed (pending q) p w
  swap_pending p q w h = subst (λ j. HoldsBooks P (books_after P feed j) w.context) (omega arith) h

  Step-Booked :
      ((n : ℕ) → IsUpdate (feed n))
      → (t u : Threads P feed) → Projected P feed t
      → Booked P feed (pending t.right) t.left t.world
      → Step P feed t u
      → Booked P feed (pending u.right) u.left u.world
  unfolding destructor_c_style
  Step-Booked v t u r h (produces e) =
      let kept =
        Ensures-done (λ _ w. Keeps P t.world t.left t.left w) e
          (produce-Keeps P feed t.world t.left) in
      subst (λ j. HoldsBooks P (books_after P feed (j + pending t.right)) u.world.context) kept.2
        (same-HoldsBooks P h kept.0 kept.1)
  Step-Booked v t u r h (stops e) =
      Ensures-done
        (λ _ c.
          HoldsBooks P (books_after P feed (t.world.inserted + pending t.left + pending t.right)) c)
        e (same-HoldsBooks P h refl refl)
  Step-Booked v t u r h (left_moves e) =
      let alone = (mutual_exclusion P.sync (workers_of P feed t) r.reached).0 in
      Ensures-done (Booked P feed (pending t.right)) e (
        advance-Booked P feed v t.left t.world (pending t.right)
          (turn-HasTurn t.left t.right t.world r.left_update (other_out _ _ alone)
            (insertion_in_order P.sync (workers_of P feed t) true r.reached))
          h)
  Step-Booked v t u r h (right_moves e) =
      let alone = (mutual_exclusion P.sync (workers_of P feed t) r.reached).0 in
      Ensures-done (λ p w. Booked P feed (pending p) t.left w) e
        (Ensures-map (advance P t.right t.world) (λ p w b. swap_pending t.left p w b)
          (advance-Booked P feed v t.right t.world (pending t.left)
            (turn-HasTurn t.right t.left t.world r.right_update
              (λ a.
                other_out _ _
                  (and_swap (in_insertion (pc_of_stage t.left)) (in_insertion (pc_of_stage t.right))
                    alone)
                  a)
              (insertion_in_order P.sync (workers_of P feed t) false r.reached))
            (swap_pending t.right t.left t.world h)))

  start-HoldsBooks : HoldsBooks P (books_after P feed 0) (initialize_c_style P)
  unfolding books_after
  start-HoldsBooks = initialize-HoldsBooks P

  -- In every state that the producer and the two workers can reach, in whatever order they move, the tree
  -- and the cached best level of each side of each instrument are those of the market's books after
  -- the first updates that were sent: those that have been inserted, and one that a worker has
  -- inserted and not yet passed on. The updates are within the bounds.
  pub books_in_order :
      (t : Threads P feed)
      → ((n : ℕ) → IsUpdate (feed n))
      → Reach P feed t
      → HoldsBooks P
          (books_after P feed (t.world.inserted + pending t.left + pending t.right))
          t.world.context
  books_in_order t v here =
      subst (λ j. HoldsBooks P (books_after P feed j) (initialize_c_style P)) (omega arith)
        (start-HoldsBooks)
  books_in_order t v (later r step) =
      Step-Booked v _ t (Reach-Projected P feed _ r) (books_in_order _ v r) step

  idle_pending : (p : Stage Double) → pc_of_stage p ≡ idle → pending p ≡ 0
  idle_pending (passing n d) h = absurd (cc)
  idle_pending p h = refl

  -- At rest the books are up to date: in a reachable state in which neither worker has an update and the
  -- ring is empty, the tree and the cached best level of each side of each instrument are those of the
  -- market's books after all updates that were sent, which are within the bounds.
  pub books_at_rest :
      (t : Threads P feed)
      → ((n : ℕ) → IsUpdate (feed n))
      → Reach P feed t
      → pc_of_stage t.left ≡ idle
      → pc_of_stage t.right ≡ idle
      → P.ring.contents t.world.context.buffer ≡ []
      → HoldsBooks P (books_after P feed t.world.sent) t.world.context
  books_at_rest t v r l q e =
      let x = Reach-Projected P feed t r in
      let inv = Reach-Inv P.sync (workers_of P feed t) x.reached in
      let a = idle_pending t.left l in
      let b = idle_pending t.right q in
      let held : t.world.taken + 0 ≡ t.world.sent = rw e at x.linked.count in
      let count : t.world.taken ≡ t.world.summed + 0 + 0 = rw (l, q) at inv.count in
      subst (λ j. HoldsBooks P (books_after P feed j) t.world.context)
        (omega (arith, a, b, held, count, inv.ordered)) (books_in_order t v r)
