-- ===== src/Startup/Ends.antt =====
-- The start comes to an end (init.cc, worker.cc).
use rsj.Prelude.{
  ℕ, zero, suc, ◌+◌, ◌≤◌, ◌<◌, ◌≡◌, ◌≢◌, refl, sym, ap, ◌∙◌, Option, some, false, ltb_of_lt, write,
  ◌⊎◌, inl, inr, arith,
}
use native.Mathlib.Decide.{ℕ_discrete}
use rsj.Prelude.Int.{ℤ}
use rsj.Structures.{thread_count}
use rsj.Platform.{Platform}
use rsj.Context.{Context}
use rsj.Startup.{
  Barrier, WorkerStage, absent, created, identified, at_barrier, looping, MainStage, before,
  creating, main_at_barrier, initialized, Start, main_step, StartStep, main_steps, Started,
  then_next, times, lookup_structures,
}
use rsj.Startup.Count.{count-write, count_full}
use rsj.Startup.Invariant.{is_absent, arrived, past, main_arrived, arrivals, StartInv}
use rsj.Startup.Steps.{arrived_at_most}
use rsj.Startup.Local.{barrier_after-some}
use rsj.Startup.Safety.{Started-StartInv}
use rsj.Startup.Nearer.{
  worker_left, main_left, left, Nearer, worker-Nearer, released_now, worker_released,
}

module _ (P : Platform) (B : Barrier) (num_cores : ℤ) (c : Context P) where
  open B use {State, barrier_init, arrive, released}

  -- All threads are past the barrier.
  abbrev pub AllStarted : Start P B num_cores → Type 0
  AllStarted t =
      ((core : Option ℤ) × (t.main ≡ initialized core))
      × ((i : ℕ)
          → i < thread_count
          → (id : ℤ) × (core : Option ℤ) × (t.workers i ≡ looping id core))

  module _ (t : Start P B num_cores) (o : StartInv P B num_cores c t) where
    worker_past :
        (i : ℕ) (p : WorkerStage)
        → t.workers i ≡ p
        → past p ≡ 1
        → (id : ℤ) × (core : Option ℤ) × (t.workers i ≡ looping id core)
    worker_past i absent e a = absurd (omega (arith, a))
    worker_past i created e a = absurd (omega (arith, a))
    worker_past i (identified id) e a = absurd (omega (arith, a))
    worker_past i (at_barrier id core) e a = absurd (omega (arith, a))
    worker_past i (looping id core) e a = (id, core, e)

    past_cases : (p : WorkerStage) → (past p ≡ 0) ⊎ (past p ≡ 1)
    past_cases absent = inl refl
    past_cases created = inl refl
    past_cases (identified id) = inl refl
    past_cases (at_barrier id core) = inl refl
    past_cases (looping id core) = inr refl

    -- The main thread is past the barrier.
    main_is_past :
        (core : Option ℤ) → t.main ≡ initialized core → AllStarted t ⊎ Nearer P B num_cores c t
    main_is_past core e =
        let all = o.main_let_go (rw e refl) in
        let came : (i : ℕ) → i < thread_count → arrived (t.workers i) ≡ 1 = λ i lt.
          count_full arrived arrived_at_most thread_count i t.workers (omega (arith, rw e at all))
            lt in
        elim (past_cases (t.workers 0)) [
          | inl z ↦ inr (
              worker_released P B num_cores c t o 0 (t.workers 0) refl (came 0 (omega arith)) z all)
          | inr y ↦ elim (past_cases (t.workers 1)) [
            | inl z ↦ inr (
                worker_released P B num_cores c t o 1 (t.workers 1) refl (came 1 (omega arith)) z
                  all)
            | inr x ↦ inl (
              (core, e),
              both (worker_past 0 (t.workers 0) refl y) (worker_past 1 (t.workers 1) refl x),
            )
          ]
        ]
      where
        both :
            ((id : ℤ) × (k : Option ℤ) × (t.workers 0 ≡ looping id k))
            → ((id : ℤ) × (k : Option ℤ) × (t.workers 1 ≡ looping id k))
            → (i : ℕ) → i < thread_count
            → (id : ℤ) × (k : Option ℤ) × (t.workers i ≡ looping id k)
        both x y zero lt = x
        both x y (suc zero) lt = y
        both x y (suc (suc n)) lt = absurd (omega (arith, lt))

    main_barrier :
        t.main ≢ before
        → t.barrier
          ≡ some (times (arrivals P B num_cores c t) arrive (barrier_init (thread_count + 1)))
    main_barrier ne =
        o.barrier_is ∙ barrier_after-some P B num_cores c t.main (arrivals P B num_cores c t) ne

    arrived_cases : (p : WorkerStage) → (arrived p ≡ 0) ⊎ (arrived p ≡ 1)
    arrived_cases absent = inl refl
    arrived_cases created = inl refl
    arrived_cases (identified id) = inl refl
    arrived_cases (at_barrier id core) = inr refl
    arrived_cases (looping id core) = inr refl

    -- The main thread waits at the barrier.
    main_waits : (core : Option ℤ) → t.main ≡ main_at_barrier core → Nearer P B num_cores c t
    unfolding main_step
    main_waits core e =
        let there : (i : ℕ) → i < thread_count → is_absent (t.workers i) ≡ false =
          λ i lt. o.made i (rw e lt) in
        elim (arrived_cases (t.workers 0)) [
          | inl z ↦ worker-Nearer P B num_cores c t o 0 (t.workers 0) refl z (there 0 (omega arith))
          | inr y ↦ elim (arrived_cases (t.workers 1)) [
            | inl z ↦
                worker-Nearer P B num_cores c t o 1 (t.workers 1) refl z (there 1 (omega arith))
            | inr x ↦
                let all : arrivals P B num_cores c t ≡ thread_count + 1 =
                  omega (arith, x, y, ap main_arrived e) in
                (
                  record t { main = initialized core },
                  main_steps (
                      ap (λ m. main_step P B num_cores m t) e
                      ∙ rw
                          (
                            main_barrier (λ q. omega (arith, ap main_arrived (sym e ∙ q))),
                            released_now P B num_cores c t o all,
                          )
                          refl),
                  omega (arith, ap main_left e),
                )
          ]
        ]

    main_begins : t.main ≡ before → Nearer P B num_cores c t
    unfolding main_step
    main_begins e =
        (_, main_steps (ap (λ m. main_step P B num_cores m t) e), omega (arith, ap main_left e))

    main_creates :
        (core : Option ℤ) (i : ℕ)
        → t.main ≡ creating core i
        → i < thread_count
        → Nearer P B num_cores c t
    unfolding main_step
    main_creates core i e lt = (
      record t { main = creating core (suc i); workers = write t.workers i created },
      main_steps (ap (λ m. main_step P B num_cores m t) e ∙ rw (ltb_of_lt i thread_count lt) refl),
      omega (
        arith,
        ap main_left e,
        lt,
        count-write worker_left thread_count i t.workers created lt,
        ap worker_left (o.not_made i (rw e (omega arith))),
      ),
    )

    main_completes :
        (core : Option ℤ) → t.main ≡ creating core thread_count → Nearer P B num_cores c t
    unfolding main_step
    main_completes core e = (
      record t {
        context = lookup_structures P B num_cores t.context;
        barrier =
            some (
              arrive (times (arrivals P B num_cores c t) arrive (barrier_init (thread_count + 1))));
        main = main_at_barrier core;
      },
      main_steps (
          ap (λ m. main_step P B num_cores m t) e
          ∙ rw (main_barrier (λ q. omega (arith, ap main_left (sym e ∙ q)))) refl),
      omega (arith, ap main_left e),
    )

    state-Nearer : (m : MainStage) → t.main ≡ m → AllStarted t ⊎ Nearer P B num_cores c t
    state-Nearer before e = inr (main_begins e)
    state-Nearer (creating core i) e = elim (ℕ_discrete i thread_count) [
      | yes q ↦ inr (main_completes core (e ∙ ap (creating core) q))
      | no ne ↦ inr (main_creates core i e (omega (arith, ne, rw e at o.upto)))
    ]
    state-Nearer (main_at_barrier core) e = inr (main_waits core e)
    state-Nearer (initialized core) e = main_is_past core e

  abbrev pub Reached : Start P B num_cores → Type 0
  Reached = Started P B num_cores c

  pub data Leads : Start P B num_cores → Start P B num_cores → Type 0 where
    stays : {t : Start P B num_cores} → Leads t t
    goes_on : {t u v : Start P B num_cores} → StartStep P B num_cores t u → Leads u v → Leads t v

  ends_within :
      (n : ℕ) (t : Start P B num_cores)
      → Reached t
      → left P B num_cores c t ≤ n
      → (u : Start P B num_cores) × Leads t u × AllStarted u
  ends_within zero t r le =
      elim (state-Nearer t (Started-StartInv P B num_cores c t r) t.main refl) [
        | inl e ↦ (t, stays, e)
        | inr (u, step, less) ↦ absurd (omega (arith, le, less))
      ]
  ends_within (suc m) t r le =
      elim (state-Nearer t (Started-StartInv P B num_cores c t r) t.main refl) [
        | inl e ↦ (t, stays, e)
        | inr (u, step, less) ↦
            let (v, path, e) = ends_within m u (then_next r step) (omega (arith, le, less)) in
            (v, goes_on step path, e)
      ]

  -- From every state of the start there are steps to one in which initialize_c_style has returned and
  -- every worker is at its loop.
  pub start_ends :
      (t : Start P B num_cores) → Reached t → (u : Start P B num_cores) × Leads t u × AllStarted u
  start_ends t r = ends_within (left P B num_cores c t) t r (omega arith)
