-- ===== src/Startup/Workers.antt =====
-- Every step of a worker in the start keeps the invariant (worker.cc).
use rsj.Prelude.{
  ℕ, suc, ◌+◌, ◌≤◌, ◌≡◌, refl, ap, sym, ◌∙◌, ap, false, Option, some, ◌==◌, write, write_self,
  write_ne, Bool-cases, inl, inr, arith,
}
use native.Mathlib.Decide.{ℕ_discrete}
use rsj.Prelude.Int.{ℤ, pos}
use rsj.Structures.{thread_count}
use rsj.Platform.{Platform}
use rsj.Context.{Context}
use rsj.Startup.{
  Barrier, entry, affinity_map, stick_this_thread_to_core, WorkerStage, absent, created, identified,
  at_barrier, looping, worker_step,
}
use rsj.Startup.Count.{count, count-write, count_at_most, same_at, count_same_at}
use rsj.Startup.Invariant.{
  is_absent, id_of, has_id, arrived, past, main_arrived, StateOf, ids, arrivals, memory, StartInv,
}
use rsj.Startup.Steps.{Keeps, arrived_at_most, arrive_once, few}
use rsj.Startup.Local.{
  add_one, some-eq, has_at_most, main_at_most, barrier_after-some, memory_id, memory_next,
  not_before, in_range, barrier_at, still_not_made, still_made, apart_after, entry-some, still_ids,
  still_below, still_apart,
}

module _ (P : Platform) (B : Barrier) (num_cores : ℤ) (c0 : Context P) where
  open B use {State, barrier_init, arrive, released}

  module _ (t : StateOf P B num_cores c0) (o : StartInv P B num_cores c0 t) (i : ℕ)
      (here : is_absent (t.workers i) ≡ false) where
    identifies :
        t.workers i ≡ created → Keeps P B num_cores c0 (worker_step P B num_cores created i t)
    unfolding worker_step
    identifies e =
        let id = t.context.global_id in
        let n = ids P B num_cores c0 t in
        let id_is : id ≡ pos n =
          ap (λ (c : Context P). c.global_id) o.context_is
          ∙ memory_id P B num_cores c0 t.main n (not_before P B num_cores c0 t o i here) in
        let w = write t.workers i (identified id) in
        let more : count has_id thread_count w ≡ 1 + n = omega (
          arith,
          count-write has_id thread_count i t.workers (identified id)
              (in_range P B num_cores c0 t o i here),
          ap has_id e,
        ) in
        let same_came =
          count_same_at arrived thread_count i t.workers (identified id) (ap arrived (sym e)) in
        record {
          upto = o.upto;
          not_made = still_not_made P B num_cores c0 t o i here (identified id) refl;
          made = still_made P B num_cores c0 t o i here (identified id) refl;
          context_is =
              rw (more, id_is, add_one n, o.context_is)
                (memory_next P B num_cores c0 t.main n (1 + n)
                  (not_before P B num_cores c0 t o i here));
          barrier_is = rw same_came o.barrier_is;
          ids_below = λ j k f. rw more (elim (ℕ_discrete j i) [
            | yes q ↦ (
              n,
              sym (some-eq (rw (q, write_self t.workers i (identified id)) at f)) ∙ id_is,
              omega arith,
            )
            | no ne ↦
                let (m, q, lt) =
                  o.ids_below j k (rw (write_ne t.workers i j (identified id) ne) at f) in
                (m, q, omega (arith, lt))
          ]);
          ids_apart =
              λ j l k f g. apart_after P B num_cores c0 t o i here id n id_is refl j l k f g;
          let_go = λ j l.
              rw same_came (
                o.let_go j
                  (sym (same_at past t.workers i (identified id) (ap past (sym e)) j) ∙ l));
          main_let_go = λ l. rw same_came (o.main_let_go l);
        }

    comes :
        (id : ℤ)
        → t.workers i ≡ identified id
        → Keeps P B num_cores c0 (worker_step P B num_cores (identified id) i t)
    unfolding worker_step entry
    comes id e =
        let (n, id_is, below) = o.ids_below i id (ap id_of e) in
        let (core, at_core) =
          entry-some P B num_cores c0 t o i here n
            (omega (arith, below, count_at_most has_id has_at_most thread_count t.workers)) in
        let v = at_barrier id (stick_this_thread_to_core num_cores core) in
        let old = arrivals P B num_cores c0 t in
        let w = write t.workers i v in
        let more : main_arrived t.main + count arrived thread_count w ≡ suc old = omega (
          arith,
          count-write arrived thread_count i t.workers v (in_range P B num_cores c0 t o i here),
          ap arrived e,
        ) in
        let le : main_arrived t.main + count arrived thread_count w ≤ thread_count + 1 =
          omega
            (arith, main_at_most t.main, count_at_most arrived arrived_at_most thread_count w) in
        rw (ap (entry affinity_map) id_is ∙ at_core, (barrier_at P B num_cores c0 t o i here))
          (record {
            upto = o.upto;
            not_made = still_not_made P B num_cores c0 t o i here v refl;
            made = still_made P B num_cores c0 t o i here v refl;
            context_is =
                o.context_is
                ∙ ap (memory P B num_cores c0 t.main) (
                    still_ids P B num_cores c0 t o i here v (ap id_of (sym e)) (ap has_id (sym e)));
            barrier_is =
                ap some (
                  arrive_once P B num_cores c0 old
                    (main_arrived t.main + count arrived thread_count w)
                    (barrier_init (thread_count + 1)) more)
                ∙ sym (
                    barrier_after-some P B num_cores c0 t.main
                      (main_arrived t.main + count arrived thread_count w)
                      (not_before P B num_cores c0 t o i here));
            ids_below =
                still_below P B num_cores c0 t o i here v (ap id_of (sym e)) (ap has_id (sym e));
            ids_apart =
                still_apart P B num_cores c0 t o i here v (ap id_of (sym e)) (ap has_id (sym e));
            let_go = λ j l. absurd (
                omega (
                  arith,
                  more,
                  le,
                  o.let_go j (sym (same_at past t.workers i v (ap past (sym e)) j) ∙ l),
                ));
            main_let_go = λ l. absurd (omega (arith, more, le, o.main_let_go l));
          })

    passes :
        (id : ℤ) (core : Option ℤ)
        → t.workers i ≡ at_barrier id core
        → Keeps P B num_cores c0 (worker_step P B num_cores (at_barrier id core) i t)
    unfolding worker_step
    passes id core e =
        let v = looping id core in
        let all = arrivals P B num_cores c0 t in
        let le : all ≤ thread_count + 1 =
          omega (arith, main_at_most t.main, few P B num_cores c0 t o) in
        let w = write t.workers i v in
        let same_came = count_same_at arrived thread_count i t.workers v (ap arrived (sym e)) in
        rw
          (
            (barrier_at P B num_cores c0 t o i here),
            B.released_by_last (thread_count + 1) all (omega arith) le,
          )
          (elim (Bool-cases (all == thread_count + 1)) [
            | inr n ↦ rw n tt
            | inl l ↦
                let full : all ≡ thread_count + 1 = ground (arith, l) in
                rw l (record {
                  upto = o.upto;
                  not_made = still_not_made P B num_cores c0 t o i here v refl;
                  made = still_made P B num_cores c0 t o i here v refl;
                  context_is =
                      o.context_is
                      ∙ ap (memory P B num_cores c0 t.main) (
                          still_ids P B num_cores c0 t o i here v (ap id_of (sym e))
                            (ap has_id (sym e)));
                  barrier_is = rw same_came (
                      sym (
                        barrier_after-some P B num_cores c0 t.main all
                          (not_before P B num_cores c0 t o i here)));
                  ids_below =
                      still_below P B num_cores c0 t o i here v (ap id_of (sym e))
                        (ap has_id (sym e));
                  ids_apart =
                      still_apart P B num_cores c0 t o i here v (ap id_of (sym e))
                        (ap has_id (sym e));
                  let_go = λ j l. rw same_came full;
                  main_let_go = λ l. rw same_came full;
                })
          ])

  pub worker-Keeps :
      (t : StateOf P B num_cores c0)
      → StartInv P B num_cores c0 t
      → (i : ℕ) (p : WorkerStage) → t.workers i ≡ p
      → Keeps P B num_cores c0 (worker_step P B num_cores p i t)
  unfolding worker_step
  worker-Keeps t o i absent e = tt
  worker-Keeps t o i created e = identifies t o i (ap is_absent e) e
  worker-Keeps t o i (identified id) e = comes t o i (ap is_absent e) id e
  worker-Keeps t o i (at_barrier id core) e = passes t o i (ap is_absent e) id core e
  worker-Keeps t o i (looping id core) e = o
