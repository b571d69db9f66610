-- ===== src/Startup/Steps.antt =====
-- Every step of the start keeps the invariant (init.cc, worker.cc).
use rsj.Prelude.{
  ℕ, suc, ◌+◌, ◌≤◌, ◌<◌, ◌≡◌, refl, subst, ltb_of_lt, sym, ◌∙◌, ap, true, false, Option, none, some,
  ◌==◌, write_self, write_ne, Bool-cases, inl, inr, arith,
}
use native.Mathlib.Decide.{ℕ_discrete}
use rsj.Prelude.Int.{ℤ}
use rsj.Structures.{thread_count}
use rsj.Platform.{Platform}
use rsj.Context.{Context, Outcome, done, spins, fault}
use rsj.Init.{initialize_c_style}
use rsj.Startup.{
  times, Barrier, WorkerStage, absent, created, identified, at_barrier, looping, MainStage, before,
  creating, main_at_barrier, initialized, basic_variables, lookup_structures, main_step,
}
use rsj.Startup.Count.{count, count_at_most, same_at, count_same_at}
use rsj.Startup.Invariant.{
  is_absent, id_of, has_id, arrived, past, main_arrived, StateOf, ids, memory, barrier_after,
  StartInv,
}

absent_of : (p : WorkerStage) → is_absent p ≡ true → p ≡ absent
absent_of absent e = refl
absent_of p e = absurd (ground arith)

pub arrived_at_most : (p : WorkerStage) → arrived p ≤ 1
arrived_at_most absent = omega arith
arrived_at_most created = omega arith
arrived_at_most (identified id) = omega arith
arrived_at_most (at_barrier id core) = omega arith
arrived_at_most (looping id core) = omega arith

pub false-true : false ≡ true → ⊥
false-true e = cc

pub no_id : {k : ℤ} → none ≡ some k → ⊥
no_id e = cc

module _ (P : Platform) (B : Barrier) (num_cores : ℤ) (c0 : Context P) where
  open B use {State, barrier_init, arrive, released}

  pub arrive_once : (a b : ℕ) (x : State) → b ≡ suc a → arrive (times a arrive x) ≡ times b arrive x
  arrive_once a b x e = rw e refl

  -- What an outcome of a step has to satisfy: it is no fault, and a new state has the invariant.
  abbrev pub Keeps : Outcome (StateOf P B num_cores c0) (Unit {0}) → Type 0
  Keeps (done a u) = StartInv P B num_cores c0 u
  Keeps spins = Unit
  Keeps fault = ⊥

  module _ (t : StateOf P B num_cores c0) (o : StartInv P B num_cores c0 t) where
    context_at :
        (m : MainStage)
        → t.main ≡ m
        → t.context ≡ memory P B num_cores c0 m (ids P B num_cores c0 t)
    context_at m e =
        subst (λ x. t.context ≡ memory P B num_cores c0 x (ids P B num_cores c0 t)) e o.context_is

    -- How many workers have come to the barrier.
    abbrev pub came : ℕ
    came = count arrived thread_count t.workers

    barrier_at :
        (m : MainStage)
        → t.main ≡ m
        → t.barrier ≡ barrier_after P B num_cores c0 m (main_arrived m + came)
    barrier_at m e =
        subst (λ x. t.barrier ≡ barrier_after P B num_cores c0 x (main_arrived x + came)) e
          o.barrier_is

    pub few : came ≤ thread_count
    few = count_at_most arrived arrived_at_most thread_count t.workers

    -- All workers are absent before the first is created.
    pub none_yet : t.main ≡ before → (j : ℕ) → t.workers j ≡ absent
    none_yet e j = o.not_made j (rw e (omega arith))

    begins : t.main ≡ before → Keeps (main_step P B num_cores before t)
    unfolding main_step memory barrier_after basic_variables
    begins e =
        let at = none_yet e in
        record {
          upto = omega arith;
          not_made = λ j l. at j;
          made = λ j l. absurd (omega (arith, l));
          context_is = rw (context_at before e, at 0, at 1) refl;
          barrier_is = rw (at 0, at 1) refl;
          ids_below = λ j k f. absurd (no_id (rw (at j) at f));
          ids_apart = λ i j k f g. absurd (no_id (rw (at j) at g));
          let_go = λ j l. absurd (omega (arith, ap past (at j), l));
          main_let_go = λ l. absurd (omega (arith, l));
        }

    -- The main thread creates worker `i`.
    creates :
        (core : Option ℤ) (i : ℕ)
        → t.main ≡ creating core i
        → i < thread_count
        → Keeps (main_step P B num_cores (creating core i) t)
    unfolding main_step memory barrier_after
    creates core i e lt =
        let absent_i : t.workers i ≡ absent = o.not_made i (rw e (omega arith)) in
        let same_id = same_at id_of t.workers i created (ap id_of (sym absent_i)) in
        let same_has =
          count_same_at has_id thread_count i t.workers created (ap has_id (sym absent_i)) in
        let same_came =
          count_same_at arrived thread_count i t.workers created (ap arrived (sym absent_i)) in
        rw (ltb_of_lt i thread_count lt) (record {
          upto = lt;
          not_made = λ j l.
              write_ne t.workers i j created (λ q. omega (arith, q, l))
              ∙ o.not_made j (rw e (omega (arith, l)));
          made = λ j l. elim (ℕ_discrete j i) [
            | yes q ↦ rw (q, write_self t.workers i created) refl
            | no ne ↦
                rw (write_ne t.workers i j created ne) (o.made j (rw e (omega (arith, l, ne))))
          ];
          context_is = rw same_has (context_at (creating core i) e);
          barrier_is = rw same_came (barrier_at (creating core i) e);
          ids_below = λ j k f. rw same_has (o.ids_below j k (sym (same_id j) ∙ f));
          ids_apart = λ j l k f g. o.ids_apart j l k (sym (same_id j) ∙ f) (sym (same_id l) ∙ g);
          let_go = λ j l. rw same_came (
              rw e at o.let_go j
                (sym (same_at past t.workers i created (ap past (sym absent_i)) j) ∙ l));
          main_let_go = λ l. absurd (omega (arith, l));
        })

    -- All workers are created: the main thread writes the rest and comes to the barrier.
    completes :
        (core : Option ℤ) (i : ℕ)
        → t.main ≡ creating core i
        → i ≡ thread_count
        → Keeps (main_step P B num_cores (creating core i) t)
    unfolding main_step memory barrier_after lookup_structures basic_variables initialize_c_style
    completes core i e q =
        rw (q, barrier_at (creating core i) e)
          (record {
            upto = omega arith;
            not_made = λ j l. o.not_made j (rw (e, q) l);
            made = λ j l. o.made j (rw (e, q) l);
            context_is = rw (context_at (creating core i) e) refl;
            barrier_is =
                ap some (
                  arrive_once (0 + came) (1 + came) (barrier_init (thread_count + 1))
                    (omega arith));
            ids_below = o.ids_below;
            ids_apart = o.ids_apart;
            let_go = λ j l. absurd (omega (arith, rw e at o.let_go j l, few));
            main_let_go = λ l. absurd (omega (arith, l));
          })

    -- The barrier is past the main thread, or a worker, once all have come to it.
    let_go_by_last :
        (m : MainStage)
        → t.main ≡ m
        → main_arrived m ≤ 1
        → released (times (main_arrived m + came) arrive (barrier_init (thread_count + 1)))
          ≡ (main_arrived m + came == thread_count + 1)
    let_go_by_last m e le =
        B.released_by_last (thread_count + 1) (main_arrived m + came) (omega arith)
          (omega (arith, few, le))

    completed :
        (core : Option ℤ)
        → t.main ≡ main_at_barrier core
        → Keeps (main_step P B num_cores (main_at_barrier core) t)
    unfolding main_step memory barrier_after
    completed core e =
        rw
          (
            barrier_at (main_at_barrier core) e,
            let_go_by_last (main_at_barrier core) e (omega arith),
          )
          (elim (Bool-cases (1 + came == thread_count + 1)) [
            | inr n ↦ rw n tt
            | inl l ↦ rw l (record {
              upto = omega arith;
              not_made = λ j le. o.not_made j (rw e le);
              made = λ j lt. o.made j (rw e lt);
              context_is = rw (context_at (main_at_barrier core) e) refl;
              barrier_is = refl;
              ids_below = o.ids_below;
              ids_apart = o.ids_apart;
              let_go = λ j p. rw e at o.let_go j p;
              main_let_go = λ p. ground (arith, l);
            })
          ])

    pub main-Keeps : (m : MainStage) → t.main ≡ m → Keeps (main_step P B num_cores m t)
    unfolding main_step
    main-Keeps before e = begins e
    main-Keeps (creating core i) e = elim (ℕ_discrete i thread_count) [
      | yes q ↦ completes core i e q
      | no ne ↦ creates core i e (omega (arith, ne, rw e at o.upto))
    ]
    main-Keeps (main_at_barrier core) e = completed core e
    main-Keeps (initialized core) e = o
