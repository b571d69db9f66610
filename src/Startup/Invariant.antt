-- ===== src/Startup/Invariant.antt =====
-- What every step of the start keeps (init.cc, worker.cc).
use rsj.Prelude.{ℕ, ◌+◌, ◌≤◌, ◌<◌, ◌≡◌, Bool, true, false, Option, none, some, []}
use rsj.Prelude.Int.{ℤ, pos}
use rsj.Structures.{thread_count}
use rsj.Platform.{Platform}
use rsj.Context.{Context}
use rsj.Init.{initialize_c_style}
use rsj.Startup.{
  times, Barrier, WorkerStage, absent, created, identified, at_barrier, looping, MainStage, before,
  creating, main_at_barrier, initialized, Start, basic_variables,
}
use rsj.Startup.Count.{count}

abbrev pub is_absent : WorkerStage → Bool
is_absent absent = true
is_absent p = false

abbrev pub id_of : WorkerStage → Option ℤ
id_of (identified id) = some id
id_of (at_barrier id core) = some id
id_of (looping id core) = some id
id_of p = none

-- 1 for a worker that has its id, that has come to the barrier, that is past it.
abbrev pub has_id : WorkerStage → ℕ
has_id absent = 0
has_id created = 0
has_id p = 1

abbrev pub arrived : WorkerStage → ℕ
arrived (at_barrier id core) = 1
arrived (looping id core) = 1
arrived p = 0

abbrev pub past : WorkerStage → ℕ
past (looping id core) = 1
past p = 0

abbrev pub main_arrived : MainStage → ℕ
main_arrived (main_at_barrier core) = 1
main_arrived (initialized core) = 1
main_arrived p = 0

abbrev pub main_past : MainStage → ℕ
main_past (initialized core) = 1
main_past p = 0

-- How many workers the main thread has created.
abbrev pub created_upto : MainStage → ℕ
created_upto before = 0
created_upto (creating core i) = i
created_upto p = thread_count

module _ (P : Platform) (B : Barrier) (num_cores : ℤ) (c0 : Context P) where
  open B use {State, barrier_init, arrive, released}

  abbrev pub StateOf : Type 0
  StateOf = Start P B num_cores

  abbrev pub ids : StateOf → ℕ
  ids t = count has_id thread_count t.workers

  -- How many threads have come to the barrier.
  abbrev pub arrivals : StateOf → ℕ
  arrivals t = main_arrived t.main + count arrived thread_count t.workers

  -- What the main thread has written, when `k` workers have taken their id.
  unfoldable pub memory : MainStage → ℕ → Context P
  unfolding basic_variables
  memory before k = record c0 { results = [] }
  memory (creating core i) k = record (basic_variables P B num_cores (record c0 { results = [] })) {
    global_id = pos k;
  }
  memory p k = record (initialize_c_style P) { global_id = pos k }

  unfoldable pub barrier_after : MainStage → ℕ → Option State
  barrier_after before k = none
  barrier_after p k = some (times k arrive (barrier_init (thread_count + 1)))

  pub record StartInv (t : StateOf) : Type 0 where
    pub upto : created_upto t.main ≤ thread_count
    pub not_made : (j : ℕ) → created_upto t.main ≤ j → t.workers j ≡ absent
    pub made : (j : ℕ) → j < created_upto t.main → is_absent (t.workers j) ≡ false
    pub context_is : t.context ≡ memory t.main (ids t)
    pub barrier_is : t.barrier ≡ barrier_after t.main (arrivals t)
    pub ids_below :
        (j : ℕ) (k : ℤ) → id_of (t.workers j) ≡ some k → (n : ℕ) × (k ≡ pos n) × (n < ids t)
    pub ids_apart :
        (i j : ℕ) (k : ℤ) → id_of (t.workers i) ≡ some k → id_of (t.workers j) ≡ some k → i ≡ j
    pub let_go : (j : ℕ) → past (t.workers j) ≡ 1 → arrivals t ≡ thread_count + 1
    pub main_let_go : main_past t.main ≡ 1 → arrivals t ≡ thread_count + 1
