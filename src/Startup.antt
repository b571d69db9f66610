-- ===== src/Startup.antt =====
-- init.cc and worker.cc: the start of the workers, from initialize_c_style up to the barrier.
pub mod Count
pub mod Invariant
pub mod Steps
pub mod Local
pub mod Workers
pub mod Safety
pub mod Nearer
pub mod Ends
use rsj.Prelude.{
  ℕ, zero, suc, ◌+◌, ◌≤◌, ◌<◌, ◌≡◌, Bool, Option, none, some, List, [], ◌∷◌, ◌==◌, ltb, write,
  if◌then◌else◌,
}
use rsj.Prelude.Int.{ℤ, pos, negsuc, ltb_ℤ, ◌+ℤ◌}
use rsj.Structures.{thread_count, buffer_size}
use rsj.Platform.{Platform}
use rsj.Context.{Context, Outcome, done, spins, fault}
use rsj.Init.{initial_bid, initial_ask, initial_flag}

abbrev pub times : {A : Type 0} → ℕ → (A → A) → A → A
times zero f a = a
times (suc n) f a = f (times n f a)

-- A barrier of the system for one round: whether the threads that wait are let go.
pub record Barrier : Type 1 where
  pub State : Type 0
  pub barrier_init : ℕ → State
  pub arrive : State → State
  pub released : State → Bool
  pub released_by_last :
      (n k : ℕ) → 0 < n → k ≤ n → released (times k arrive (barrier_init n)) ≡ (k == n)

-- The entry of an array, if the index is within it.
unfoldable pub entry : List ℤ → ℤ → Option ℤ
entry [] i = none
entry (x ∷ xs) (pos zero) = some x
entry (x ∷ xs) (pos (suc n)) = entry xs (pos n)
entry (x ∷ xs) (negsuc n) = none

abbrev pub affinity_map : List ℤ
affinity_map =
    pos 1
    ∷ pos 2
    ∷ pos 3
    ∷ pos 4
    ∷ pos 5
    ∷ pos 6
    ∷ pos 7
    ∷ pos 16
    ∷ pos 17
    ∷ pos 18
    ∷ pos 19
    ∷ pos 20
    ∷ pos 21
    ∷ pos 22
    ∷ pos 23
    ∷ []

-- The core that the calling thread is bound to; `none` leaves its affinity as it is.
unfoldable pub stick_this_thread_to_core : ℤ → ℤ → Option ℤ
stick_this_thread_to_core num_cores core_id = if ltb_ℤ core_id num_cores then some core_id else none

-- Where a worker stands in worker_start, with its id and its core.
pub data WorkerStage : Type 0 where
  absent : WorkerStage  -- not created
  created : WorkerStage  -- before the id
  identified : ℤ → WorkerStage  -- before the barrier
  at_barrier : ℤ → Option ℤ → WorkerStage
  looping : ℤ → Option ℤ → WorkerStage  -- at the loop

-- Where the thread that calls initialize_c_style stands, with its core.
pub data MainStage : Type 0 where
  before : MainStage
  creating : Option ℤ → ℕ → MainStage  -- pthread_create of the worker of this number, or past the loop
  main_at_barrier : Option ℤ → MainStage
  initialized : Option ℤ → MainStage

module _ (P : Platform) (B : Barrier) (num_cores : ℤ) where
  open B use {State, barrier_init, arrive, released}

  pub record Start : Type 0 where
    pub context : Context P
    pub barrier : Option State
    pub main : MainStage
    pub workers : ℕ → WorkerStage

  -- The variables that are set before the threads are created, and the structures that are set after.
  unfoldable pub basic_variables : Context P → Context P
  basic_variables c = record c {
    global_id = pos 0;
    running = pos 1;
    order_index = 0;
    fp_i_history = λ i j. P.doubles.decimal 0 0;
    order_indices_bid = λ i. 0;
  }

  unfoldable pub lookup_structures : Context P → Context P
  lookup_structures c = record c {
    asks = λ i. initial_ask P;
    bids = λ i. initial_bid P;
    order = initial_flag P;
    order_sum = initial_flag P;
    sum_history = λ i. P.doubles.decimal 0 0;
    buffer = P.ring.ck_ring_init buffer_size;
  }

  -- One step of the thread that calls initialize_c_style.
  unfoldable pub main_step : MainStage → Start → Outcome Start (Unit {0})
  main_step before t = done tt (record t {
    context = basic_variables t.context;
    barrier = some (barrier_init (thread_count + 1));
    main = creating (stick_this_thread_to_core num_cores (pos 0)) 0;
  })
  main_step (creating core i) t =
      if ltb i thread_count
      then done tt (record t { main = creating core (suc i); workers = write t.workers i created })
      else elim t.barrier [
        | none ↦ fault
        | some b ↦ done tt (record t {
          context = lookup_structures t.context;
          barrier = some (arrive b);
          main = main_at_barrier core;
        })
      ]
  main_step (main_at_barrier core) t = elim t.barrier [
    | none ↦ fault
    | some b ↦ if released b then done tt (record t { main = initialized core }) else spins
  ]
  main_step (initialized core) t = done tt t

  -- One step of worker `i`.
  unfoldable pub worker_step : WorkerStage → ℕ → Start → Outcome Start (Unit {0})
  worker_step absent i t = spins
  worker_step created i t =
      let id = t.context.global_id in
      done tt (record t {
        context = record t.context { global_id = id +ℤ pos 1 };
        workers = write t.workers i (identified id);
      })
  worker_step (identified id) i t = elim (entry affinity_map id) [
    | none ↦ fault
    | some core ↦ elim t.barrier [
      | none ↦ fault
      | some b ↦ done tt (record t {
        barrier = some (arrive b);
        workers = write t.workers i (at_barrier id (stick_this_thread_to_core num_cores core));
      })
    ]
  ]
  worker_step (at_barrier id core) i t = elim t.barrier [
    | none ↦ fault
    | some b ↦
        if released b
        then done tt (record t { workers = write t.workers i (looping id core) })
        else spins
  ]
  worker_step (looping id core) i t = done tt t

  pub data StartStep (t : Start) : Start → Type 0 where
    main_steps : {u : Start} → main_step t.main t ≡ done tt u → StartStep t u
    worker_steps : {u : Start} (i : ℕ) → worker_step (t.workers i) i t ≡ done tt u → StartStep t u

  -- What was in memory before is arbitrary; the consumer was not called.
  abbrev pub unstarted : Context P → Start
  unstarted c = record {
    context = record c { results = [] };
    barrier = none;
    main = before;
    workers = λ i. absent;
  }

  pub data Started (c : Context P) : Start → Type 0 where
    at_first : Started c (unstarted c)
    then_next : {t u : Start} → Started c t → StartStep t u → Started c u
