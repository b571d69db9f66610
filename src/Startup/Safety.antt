-- ===== src/Startup/Safety.antt =====
-- What holds in every state of the start (init.cc, worker.cc).
use rsj.Prelude.{ℕ, ◌≤◌, ◌<◌, ◌≡◌, ◌≢◌, refl, ap, subst, ◌∙◌, Option, some, arith}
use rsj.Prelude.Int.{ℤ, pos}
use rsj.Structures.{thread_count}
use rsj.Platform.{Platform}
use rsj.Context.{Context, fault}
use rsj.Init.{initialize_c_style}
use rsj.Startup.{
  Barrier, WorkerStage, absent, created, identified, at_barrier, looping, MainStage, before,
  creating, main_at_barrier, initialized, Start, main_step, worker_step, StartStep, main_steps,
  worker_steps, Started, at_first, then_next, unstarted,
}
use rsj.Startup.Count.{count, count_full, count_at_most}
use rsj.Startup.Invariant.{
  id_of, has_id, arrived, past, main_arrived, ids, memory, barrier_after, StartInv,
}
use rsj.Startup.Steps.{Keeps, main-Keeps, arrived_at_most, few, no_id}
use rsj.Startup.Workers.{worker-Keeps}
use rsj.Startup.Local.{has_at_most, main_at_most}

arrived-has_id : (p : WorkerStage) → arrived p ≤ has_id p
arrived-has_id absent = omega arith
arrived-has_id created = omega arith
arrived-has_id (identified id) = omega arith
arrived-has_id (at_barrier id core) = omega arith
arrived-has_id (looping id core) = omega arith

module _ (P : Platform) (B : Barrier) (num_cores : ℤ) (c : Context P) where
  abbrev pub Reached : Start P B num_cores → Type 0
  Reached = Started P B num_cores c

  unstarted-StartInv : StartInv P B num_cores c (unstarted P B num_cores c)
  unfolding memory barrier_after
  unstarted-StartInv = record {
    upto = omega arith;
    not_made = λ j le. refl;
    made = λ j lt. absurd (omega (arith, lt));
    context_is = refl;
    barrier_is = refl;
    ids_below = λ j k f. absurd (no_id f);
    ids_apart = λ i j k f g. absurd (no_id f);
    let_go = λ j p. absurd (omega (arith, p));
    main_let_go = λ p. absurd (omega (arith, p));
  }

  pub step-StartInv :
      (t u : Start P B num_cores)
      → StartInv P B num_cores c t
      → StartStep P B num_cores t u
      → StartInv P B num_cores c u
  step-StartInv t u o (main_steps e) =
      subst (Keeps P B num_cores c) e (main-Keeps P B num_cores c t o t.main refl)
  step-StartInv t u o (worker_steps i e) =
      subst (Keeps P B num_cores c) e (worker-Keeps P B num_cores c t o i (t.workers i) refl)

  pub Started-StartInv : (t : Start P B num_cores) → Reached t → StartInv P B num_cores c t
  Started-StartInv t at_first = unstarted-StartInv
  Started-StartInv t (then_next {t = s} r step) = step-StartInv s t (Started-StartInv s r) step

  module _ (t : Start P B num_cores) (r : Reached t) where
    -- No step of the start is undefined; in particular each worker's id is an index of affinity_map and
    -- the barrier is initialised before it is waited on.
    pub start_no_fault :
        (main_step P B num_cores t.main t ≢ fault)
        × ((i : ℕ) → worker_step P B num_cores (t.workers i) i t ≢ fault)
    start_no_fault =
        let o = Started-StartInv t r in
        (
          λ e. subst (Keeps P B num_cores c) e (main-Keeps P B num_cores c t o t.main refl),
          λ i e.
              subst (Keeps P B num_cores c) e
                (worker-Keeps P B num_cores c t o i (t.workers i) refl),
        )

    -- The ids of the workers are numbers below THREAD_COUNT, and no two workers have the same.
    pub ids_distinct :
        (i : ℕ) (k : ℤ)
        → id_of (t.workers i) ≡ some k
        → ((n : ℕ) × (k ≡ pos n) × (n < thread_count))
          × ((j : ℕ) → id_of (t.workers j) ≡ some k → i ≡ j)
    ids_distinct i k f =
        let o = Started-StartInv t r in
        let (n, e, lt) = o.ids_below i k f in
        (
          (n, e, omega (arith, lt, count_at_most has_id has_at_most thread_count t.workers)),
          λ j g. o.ids_apart i j k f g,
        )

    memory_arrived :
        (m : MainStage)
        → main_arrived m ≡ 1
        → memory P B num_cores c m thread_count
          ≡ record (initialize_c_style P) { global_id = pos thread_count }
    unfolding memory
    memory_arrived before e = absurd (omega (arith, e))
    memory_arrived (creating core i) e = absurd (omega (arith, e))
    memory_arrived (main_at_barrier core) e = refl
    memory_arrived (initialized core) e = refl

    -- When a worker is at its loop, the state is that of initialize_c_style with all ids given out, and
    -- every worker has come to the barrier.
    pub ready_at_loop :
        (i : ℕ) (id : ℤ) (core : Option ℤ)
        → t.workers i ≡ looping id core
        → (t.context ≡ record (initialize_c_style P) { global_id = pos thread_count })
          × ((j : ℕ) → j < thread_count → arrived (t.workers j) ≡ 1)
    ready_at_loop i id core e =
        let o = Started-StartInv t r in
        let all = o.let_go i (ap past e) in
        let came = few P B num_cores c t o in
        let main_there : main_arrived t.main ≡ 1 = omega (arith, all, came, main_at_most t.main) in
        let all_came : count arrived thread_count t.workers ≡ thread_count =
          omega (arith, all, main_there) in
        let full : (j : ℕ) → j < thread_count → arrived (t.workers j) ≡ 1 =
          λ j lt. count_full arrived arrived_at_most thread_count j t.workers all_came lt in
        let all_ids : ids P B num_cores c t ≡ thread_count = omega (
          arith,
          all_came,
          count_at_most has_id has_at_most thread_count t.workers,
          arrived-has_id (t.workers 0),
          arrived-has_id (t.workers 1),
        ) in
        (
          o.context_is
              ∙ ap (memory P B num_cores c t.main) all_ids
              ∙ memory_arrived t.main main_there,
          full,
        )
