-- ===== src/Tests/Startup.antt =====
-- A run of the start (init.cc, worker.cc) with a barrier that counts, on a machine with four cores.
use rsj.Prelude.{
  ℕ, zero, suc, ◌<◌, ◌≡◌, ◌≢◌, refl, ap, Option, none, some, List, [], ◌∷◌, ◌==◌, inl, inr,
}
use rsj.Prelude.Int.{pos, ◌+ℤ◌}
use rsj.Structures.{thread_count}
use rsj.Platform.Sample.{sample}
use rsj.Context.{Context, Outcome, done, spins, fault}
use rsj.Init.{initialize_c_style}
use rsj.Startup.{
  Barrier, Start, at_barrier, looping, main_step, worker_step, main_steps, worker_steps, Started,
  at_first, then_next, unstarted, times, entry, stick_this_thread_to_core, basic_variables,
  lookup_structures,
}
use rsj.Startup.Invariant.{id_of, arrived}
use rsj.Startup.Safety.{start_no_fault, ids_distinct, ready_at_loop}
use rsj.Startup.Ends.{Leads, AllStarted, start_ends}
use rsj.Threads.Schedule.{Outcome-cases}

-- How many threads the barrier lets go together, and how many have come.
record Counted : Type 0 where
  of : ℕ
  come : ℕ

abbrev count_one : Counted → Counted
count_one b = record { of = b.of; come = suc b.come }

times-count_one :
    (n k : ℕ) → times k count_one (record { of = n; come = 0 }) ≡ record { of = n; come = k }
times-count_one n zero = refl
times-count_one n (suc k) = ap count_one (times-count_one n k)

abbrev counter : Barrier
counter = record {
  State = Counted;
  barrier_init = λ n. record { of = n; come = 0 };
  arrive = count_one;
  released = λ b. b.come == b.of;
  released_by_last = λ n k lt le. rw (times-count_one n k) refl;
}

abbrev StartOf : Type 0
StartOf = Start sample counter (pos 4)

abbrev memory_before : Context sample
memory_before = initialize_c_style sample

abbrev Reached : StartOf → Type 0
Reached = Started sample counter (pos 4) memory_before

-- A step of the main thread (`none`) or of a worker; a thread that has no step stays where it is.
abbrev step_of : Option ℕ → StartOf → Outcome StartOf (Unit {0})
step_of none t = main_step sample counter (pos 4) t.main t
step_of (some i) t = worker_step sample counter (pos 4) (t.workers i) i t

abbrev state_of : StartOf → Outcome StartOf (Unit {0}) → StartOf
state_of t (done _ u) = u
state_of t spins = t
state_of t fault = t

abbrev run : List (Option ℕ) → StartOf → StartOf
run [] t = t
run (x ∷ xs) t = run xs (state_of t (step_of x t))

step-Started : (x : Option ℕ) (t : StartOf) → Reached t → Reached (state_of t (step_of x t))
step-Started none t r = elim (Outcome-cases (step_of none t)) [
  | inl (tt, u, e) ↦ rw e (then_next r (main_steps e))
  | inr (inl e) ↦ rw e r
  | inr (inr e) ↦ rw e r
]
step-Started (some i) t r = elim (Outcome-cases (step_of (some i) t)) [
  | inl (tt, u, e) ↦ rw e (then_next r (worker_steps i e))
  | inr (inl e) ↦ rw e r
  | inr (inr e) ↦ rw e r
]

run-Started : (xs : List (Option ℕ)) (t : StartOf) → Reached t → Reached (run xs t)
run-Started [] t r = r
run-Started (x ∷ xs) t r = run-Started xs (state_of t (step_of x t)) (step-Started x t r)

-- The second worker takes the first id; the first is late at the barrier, and at its loop first.
abbrev schedule : List (Option ℕ)
schedule =
    none ∷ none ∷ none ∷ some 1 ∷ some 0 ∷ some 1 ∷ some 1 ∷ none ∷ none ∷ some 0 ∷ some 0 ∷ []

abbrev started : StartOf
started = run schedule (unstarted sample counter (pos 4) memory_before)

started-Reached : Reached started
started-Reached = run-Started schedule (unstarted sample counter (pos 4) memory_before) at_first

first_loops : started.workers 0 ≡ looping (pos 1) (some (pos 2))
unfolding main_step worker_step entry stick_this_thread_to_core basic_variables lookup_structures
    ◌+ℤ◌
first_loops = refl

second_waits : started.workers 1 ≡ at_barrier (pos 0) (some (pos 1))
unfolding main_step worker_step entry stick_this_thread_to_core basic_variables lookup_structures
    ◌+ℤ◌
second_waits = refl

start_no_fault_example :
    (main_step sample counter (pos 4) started.main started ≢ fault)
    × ((i : ℕ) → worker_step sample counter (pos 4) (started.workers i) i started ≢ fault)
start_no_fault_example = start_no_fault sample counter (pos 4) memory_before started started-Reached

ids_distinct_example :
    ((n : ℕ) × (pos 1 ≡ pos n) × (n < thread_count))
    × ((j : ℕ) → id_of (started.workers j) ≡ some (pos 1) → 0 ≡ j)
ids_distinct_example =
    ids_distinct sample counter (pos 4) memory_before started started-Reached 0 (pos 1)
      (ap id_of first_loops)

ready_at_loop_example :
    (started.context ≡ record (initialize_c_style sample) { global_id = pos thread_count })
    × ((j : ℕ) → j < thread_count → arrived (started.workers j) ≡ 1)
ready_at_loop_example =
    ready_at_loop sample counter (pos 4) memory_before started started-Reached 0 (pos 1)
      (some (pos 2)) first_loops

start_ends_example :
    (u : StartOf) × Leads sample counter (pos 4) memory_before started u
    × AllStarted sample counter (pos 4) memory_before u
start_ends_example = start_ends sample counter (pos 4) memory_before started started-Reached
