-- ===== src/Threads/Runs.antt =====
-- Every run of the producer and the two workers is, seen from the flags, a run of the workers of Turns.
use rsj.Prelude.{
  ℕ, ◌+◌, ◌≡◌, refl, sym, ap, subst, List, [], ◌∷◌, ◌++◌, length, length-append, inl, inr,
  Bool-cases, Option-cases, ltb, arith,
}
use rsj.Structures.{RsjDataIn, instrument_count}
use rsj.Platform.{Platform}
use rsj.Context.{Outcome, done}
use rsj.Init.{initialize_c_style}
use rsj.Producer.{Update, placed, numbered, update_c_style, enqueue}
use rsj.Turns.Defs.{place, Workers, move_left, move_right, start, initial_flags}
use rsj.Turns.Defs
use rsj.Threads.Defs.{
  World, produce, destructor_c_style, Threads, Step, produces, stops, left_moves, right_moves,
  begin, Reach, here, later,
}
use rsj.Threads.Places.{earlier, earlier-count}
use rsj.Threads.Links.{
  Ensures, pc_of_stage, shared_of, IsNumbered, HasUpdate, Queued, Linked, Moves, Follows,
}
use rsj.Threads.Project.{advance-Follows}

pub Ensures-done :
    {S A : Type 0} {o : Outcome S A} {a : A} {s : S} (Q : A → S → Type 0)
    → o ≡ done a s
    → Ensures o Q
    → Q a s
Ensures-done Q e h = subst (λ o. Ensures o Q) e h

module _ (P : Platform) (feed : ℕ → Update) where
  open P.doubles use {Double}

  Queued-append :
      (n : ℕ) (ds : List RsjDataIn) (d : RsjDataIn)
      → Queued P feed n ds
      → IsNumbered P feed (n + length ds) d
      → Queued P feed n (ds ++ d ∷ [])
  Queued-append n [] d q h = (subst (λ k. IsNumbered P feed k d) (omega arith) h, tt)
  Queued-append n (e ∷ ds) d q h =
      (q.0, Queued-append (n + 1) ds d q.1 (subst (λ k. IsNumbered P feed k d) (omega arith) h))

  -- A call of `Update` leaves the flags alone and puts its update into the ring with the next number.
  produce_links :
      (w : World P)
      → Linked P feed w
      → Ensures
          (produce P feed w)
          (λ _ w'. (shared_of P feed w' ≡ shared_of P feed w) × Linked P feed w')
  unfolding produce update_c_style enqueue numbered
  produce_links w l =
      let u = feed w.sent in
      let d = numbered P u w.context in
      elim (Bool-cases (ltb u.instrument instrument_count)) [
        | inl a ↦ elim (Option-cases (P.ring.enqueue_spmc w.context.buffer d)) [
          | inl e ↦ rw (a, Ensures) (rw (e, Ensures) tt)
          | inr (r, e) ↦
              let (held, _) = P.ring.enqueue_some w.context.buffer d r e in
              let same : d ≡ placed u (place w.sent) d.specific_index =
                ap (λ k. placed u k d.specific_index) (omega (arith, l.counter)) in
              rw (a, Ensures)
                (rw (e, Ensures)
                  (
                    refl,
                    record {
                      queued = rw held (
                          Queued-append w.taken _ d l.queued (
                            subst (λ k. IsNumbered P feed k d) (sym l.count)
                              (same, omega arith, omega (arith, l.counters u.instrument))));
                      count = rw held (
                          omega (
                            arith,
                            l.count,
                            length-append (P.ring.contents w.context.buffer) (d ∷ []),
                          ));
                      counter = rw l.counter (omega arith);
                      counters =
                          λ i. (earlier-count feed w.sent w.context.order_indices_bid l.counters i);
                    },
                  ))
        ]
        | inr a ↦ rw (a, Ensures) tt
      ]

  -- The workers of Turns.
  abbrev pub workers_of : Threads P feed → Workers P.sync
  workers_of t = record {
    shared = shared_of P feed t.world;
    left = pc_of_stage t.left;
    right = pc_of_stage t.right;
  }

  -- What every reachable state is.
  pub record Projected (t : Threads P feed) : Type 0 where
    pub reached : Defs.Reach P.sync (workers_of t)
    pub linked : Linked P feed t.world
    pub left_update : HasUpdate P feed t.left
    pub right_update : HasUpdate P feed t.right

  begin-Projected : Projected (begin P feed)
  unfolding initialize_c_style earlier
  begin-Projected = record {
    reached = Defs.here;
    linked = record {
      queued = rw (P.ring.contents-init 2) tt;
      count = rw (P.ring.contents-init 2) refl;
      counter = refl;
      counters = λ i. refl;
    };
    left_update = tt;
    right_update = tt;
  }

  after_left :
      {s s' : Defs.Shared P.sync} {p p' q : Defs.Pc}
      → Defs.Reach P.sync (record { shared = s; left = p; right = q })
      → Moves P feed s p s' p'
      → Defs.Reach P.sync (record { shared = s'; left = p'; right = q })
  after_left r (inl m) = Defs.later r (move_left m)
  after_left r (inr (a, b)) = rw (← a, ← b) r

  after_right :
      {s s' : Defs.Shared P.sync} {p p' q : Defs.Pc}
      → Defs.Reach P.sync (record { shared = s; left = q; right = p })
      → Moves P feed s p s' p'
      → Defs.Reach P.sync (record { shared = s'; left = q; right = p' })
  after_right r (inl m) = Defs.later r (move_right m)
  after_right r (inr (a, b)) = rw (← a, ← b) r

  Step-Projected : (t u : Threads P feed) → Projected t → Step P feed t u → Projected u
  unfolding destructor_c_style
  Step-Projected t u h (produces e) =
      let (same, links) =
        Ensures-done (λ _ w'. (shared_of P feed w' ≡ shared_of P feed t.world) × Linked P feed w') e
          (produce_links t.world h.linked) in
      record {
        reached = rw same h.reached;
        linked = links;
        left_update = h.left_update;
        right_update = h.right_update;
      }
  Step-Projected t u h (stops e) =
      Ensures-done (λ _ c. Projected (record t { world = record t.world { context = c } })) e
        (record {
          reached = h.reached;
          linked = record {
            queued = h.linked.queued;
            count = h.linked.count;
            counter = h.linked.counter;
            counters = h.linked.counters;
          };
          left_update = h.left_update;
          right_update = h.right_update;
        })
  Step-Projected t u h (left_moves e) =
      let (moved, links, has) =
        Ensures-done (Follows P feed t.world t.left) e
          (advance-Follows P feed t.left t.world h.linked h.left_update) in
      record {
        reached = after_left h.reached moved;
        linked = links;
        left_update = has;
        right_update = h.right_update;
      }
  Step-Projected t u h (right_moves e) =
      let (moved, links, has) =
        Ensures-done (Follows P feed t.world t.right) e
          (advance-Follows P feed t.right t.world h.linked h.right_update) in
      record {
        reached = after_right h.reached moved;
        linked = links;
        left_update = h.left_update;
        right_update = has;
      }

  -- Every state that the producer and the two workers can reach is, seen from the flags, one that the
  -- workers of Turns can reach; the ring holds the updates that are sent and not taken, each with the
  -- place of its number, and each worker's update has the place of its number.
  pub Reach-Projected : (t : Threads P feed) → Reach P feed t → Projected t
  Reach-Projected t here = begin-Projected
  Reach-Projected t (later r step) = Step-Projected _ t (Reach-Projected _ r) step
