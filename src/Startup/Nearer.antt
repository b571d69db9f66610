-- ===== src/Startup/Nearer.antt =====
-- The steps that the workers have left in the start (worker.cc).
use rsj.Prelude.{ℕ, ◌+◌, ◌-◌, ◌<◌, ◌≡◌, refl, ap, ◌∙◌, some, true, false, write, arith}
use rsj.Prelude.Int.{ℤ}
use rsj.Structures.{thread_count}
use rsj.Platform.{Platform}
use rsj.Context.{Context, done}
use rsj.Startup.{
  Barrier, WorkerStage, absent, created, identified, at_barrier, looping, MainStage, before,
  creating, main_at_barrier, initialized, Start, worker_step, StartStep, worker_steps, times, entry,
  affinity_map, stick_this_thread_to_core,
}
use rsj.Startup.Count.{count, count-write, count_at_most}
use rsj.Startup.Invariant.{is_absent, id_of, has_id, arrived, past, arrivals, StartInv}
use rsj.Startup.Local.{has_at_most, barrier_at, entry-some, in_range}

-- How many steps a thread has before it.
abbrev pub worker_left : WorkerStage → ℕ
worker_left absent = 4
worker_left created = 3
worker_left (identified id) = 2
worker_left (at_barrier id core) = 1
worker_left (looping id core) = 0

abbrev pub main_left : MainStage → ℕ
main_left before = thread_count + 3
main_left (creating core i) = 2 + (thread_count - i)
main_left (main_at_barrier core) = 1
main_left (initialized core) = 0

module _ (P : Platform) (B : Barrier) (num_cores : ℤ) (c : Context P) where
  open B use {State, barrier_init, arrive, released}

  abbrev pub left : Start P B num_cores → ℕ
  left t = main_left t.main + count worker_left thread_count t.workers

  abbrev pub Nearer : Start P B num_cores → Type 0
  Nearer t = (u : Start P B num_cores) × StartStep P B num_cores t u × (left u < left t)

  module _ (t : Start P B num_cores) (o : StartInv P B num_cores c t) where
    -- Worker `i` moves from `p` to `q`.
    worker_moves :
        (i : ℕ) (p q : WorkerStage) (u : Start P B num_cores)
        → t.workers i ≡ p
        → is_absent p ≡ false
        → worker_step P B num_cores p i t ≡ done tt u
        → u.main ≡ t.main
        → u.workers ≡ write t.workers i q
        → worker_left q < worker_left p
        → Nearer t
    worker_moves i p q u e b goes same moved less = (
      u,
      worker_steps i (rw e goes),
      rw (same, moved)
          (omega (
            arith,
            count-write worker_left thread_count i t.workers q
                (in_range P B num_cores c t o i (ap is_absent e ∙ b)),
            ap worker_left e,
            less,
          )),
    )

    pub worker-Nearer :
        (i : ℕ) (p : WorkerStage) → t.workers i ≡ p → arrived p ≡ 0 → is_absent p ≡ false → Nearer t
    unfolding worker_step entry stick_this_thread_to_core
    worker-Nearer i absent e a b = absurd (ground arith)
    worker-Nearer i created e a b =
        worker_moves i created (identified t.context.global_id) _ e refl refl refl refl
          (omega arith)
    worker-Nearer i (identified id) e a b =
        let (n, id_is, below) = o.ids_below i id (ap id_of e) in
        let (core, at_core) =
          entry-some P B num_cores c t o i (ap is_absent e) n
            (omega (arith, below, count_at_most has_id has_at_most thread_count t.workers)) in
        let v = at_barrier id (stick_this_thread_to_core num_cores core) in
        worker_moves i (identified id) v
          (record t {
            barrier = some (
                arrive
                  (times (arrivals P B num_cores c t) arrive (barrier_init (thread_count + 1))));
            workers = write t.workers i v;
          })
          e refl
          (rw
            (
              ap (entry affinity_map) id_is ∙ at_core,
              barrier_at P B num_cores c t o i (ap is_absent e),
            )
            refl)
          refl refl (omega arith)
    worker-Nearer i (at_barrier id core) e a b = absurd (omega (arith, a))
    worker-Nearer i (looping id core) e a b = absurd (omega (arith, a))

    pub released_now :
        arrivals P B num_cores c t ≡ thread_count + 1
        → released (times (arrivals P B num_cores c t) arrive (barrier_init (thread_count + 1)))
          ≡ true
    released_now e =
        B.released_by_last (thread_count + 1) (arrivals P B num_cores c t) (omega arith)
          (omega (arith, e))
        ∙ rw e refl

    -- A worker that is not past the barrier when all have come to it.
    pub worker_released :
        (i : ℕ) (p : WorkerStage)
        → t.workers i ≡ p
        → arrived p ≡ 1
        → past p ≡ 0
        → arrivals P B num_cores c t ≡ thread_count + 1
        → Nearer t
    unfolding worker_step
    worker_released i absent e a b all = absurd (omega (arith, a))
    worker_released i created e a b all = absurd (omega (arith, a))
    worker_released i (identified id) e a b all = absurd (omega (arith, a))
    worker_released i (at_barrier id core) e a b all =
        worker_moves i (at_barrier id core) (looping id core)
          (record t { workers = write t.workers i (looping id core) }) e refl
          (rw (barrier_at P B num_cores c t o i (ap is_absent e), released_now all) refl) refl refl
          (omega arith)
    worker_released i (looping id core) e a b all = absurd (omega (arith, b))
