-- ===== src/Startup/Local.antt =====
-- What the steps of the workers in the start have in common (worker.cc).
use rsj.Prelude.{
  ℕ, zero, suc, ◌+◌, ◌≤◌, ◌<◌, ◌≡◌, ◌≢◌, refl, ap, sym, ◌∙◌, ap, false, some, ltb, write,
  write_self, write_ne, Bool-cases, inl, inr, arith,
}
use native.Mathlib.Decide.{ℕ_discrete}
use rsj.Prelude.Int.{ℤ, pos, ◌+ℤ◌, pos_part}
use rsj.Structures.{thread_count}
use rsj.Platform.{Platform}
use rsj.Context.{Context}
use rsj.Startup.{
  times, Barrier, entry, affinity_map, WorkerStage, absent, created, identified, at_barrier,
  looping, MainStage, before, creating, main_at_barrier, initialized,
}
use rsj.Startup.Count.{count, same_at, count_same_at}
use rsj.Startup.Invariant.{
  is_absent, id_of, has_id, main_arrived, created_upto, StateOf, ids, arrivals, memory,
  barrier_after, StartInv,
}
use rsj.Startup.Steps.{false-true, none_yet}

pub pos_injective : (m n : ℕ) → pos m ≡ pos n → m ≡ n
pos_injective m n e = ap pos_part e

pub add_one : (k : ℕ) → pos k +ℤ pos 1 ≡ pos (1 + k)
unfolding ◌+ℤ◌
add_one k = ground arith

pub some-eq : {a b : ℤ} → some a ≡ some b → a ≡ b
some-eq e = cc

pub has_at_most : (p : WorkerStage) → has_id p ≤ 1
has_at_most absent = omega arith
has_at_most created = omega arith
has_at_most (identified id) = omega arith
has_at_most (at_barrier id core) = omega arith
has_at_most (looping id core) = omega arith

pub main_at_most : (m : MainStage) → main_arrived m ≤ 1
main_at_most before = omega arith
main_at_most (creating core i) = omega arith
main_at_most (main_at_barrier core) = omega arith
main_at_most (initialized core) = omega arith

module _ (P : Platform) (B : Barrier) (num_cores : ℤ) (c0 : Context P) where
  open B use {State, barrier_init, arrive, released}

  pub barrier_after-some :
      (m : MainStage) (k : ℕ)
      → m ≢ before
      → barrier_after P B num_cores c0 m k ≡ some (times k arrive (barrier_init (thread_count + 1)))
  unfolding barrier_after
  barrier_after-some before k ne = absurd (ne refl)
  barrier_after-some (creating core i) k ne = refl
  barrier_after-some (main_at_barrier core) k ne = refl
  barrier_after-some (initialized core) k ne = refl

  pub memory_id :
      (m : MainStage) (k : ℕ) → m ≢ before → (memory P B num_cores c0 m k).global_id ≡ pos k
  unfolding memory
  memory_id before k ne = absurd (ne refl)
  memory_id (creating core i) k ne = refl
  memory_id (main_at_barrier core) k ne = refl
  memory_id (initialized core) k ne = refl

  pub memory_next :
      (m : MainStage) (k n : ℕ)
      → m ≢ before
      → record (memory P B num_cores c0 m k) { global_id = pos n } ≡ memory P B num_cores c0 m n
  unfolding memory
  memory_next before k n ne = absurd (ne refl)
  memory_next (creating core i) k n ne = refl
  memory_next (main_at_barrier core) k n ne = refl
  memory_next (initialized core) k n ne = refl

  module _ (t : StateOf P B num_cores c0) (o : StartInv P B num_cores c0 t) (i : ℕ)
      (here : is_absent (t.workers i) ≡ false) where
    pub not_before : t.main ≢ before
    not_before e = false-true (sym here ∙ ap is_absent (none_yet P B num_cores c0 t o e i))

    pub in_range : i < thread_count
    in_range = elim (Bool-cases (ltb i thread_count)) [
      | inl l ↦ ground (arith, l)
      | inr n ↦
          absurd (false-true (sym here ∙ ap is_absent (o.not_made i (ground (arith, n, o.upto)))))
    ]

    pub barrier_at :
        t.barrier
        ≡ some (times (arrivals P B num_cores c0 t) arrive (barrier_init (thread_count + 1)))
    barrier_at = o.barrier_is ∙ barrier_after-some t.main (arrivals P B num_cores c0 t) not_before

    -- Worker `i` changes to another stage.
    module _ (v : WorkerStage) (there : is_absent v ≡ false) where
      pub still_not_made : (j : ℕ) → created_upto t.main ≤ j → write t.workers i v j ≡ absent
      still_not_made j le =
          write_ne t.workers i j v (λ q.
            false-true (
              sym here
              ∙ ap (λ k. is_absent (t.workers k)) (sym q)
              ∙ ap is_absent (o.not_made j le)))
          ∙ o.not_made j le

      pub still_made : (j : ℕ) → j < created_upto t.main → is_absent (write t.workers i v j) ≡ false
      still_made j lt = same_at is_absent t.workers i v (there ∙ sym here) j ∙ o.made j lt

    -- No worker has the id that is given next.
    pub not_next :
        (j : ℕ) (id k : ℤ) (n : ℕ)
        → id ≡ pos n
        → id ≡ k
        → n ≡ ids P B num_cores c0 t
        → id_of (t.workers j) ≢ some k
    not_next j id k n e q c f =
        let (m, r, lt) = o.ids_below j k f in
        omega (arith, lt, c, pos_injective n m (sym e ∙ q ∙ r))

    pub apart_after :
        (id : ℤ) (n : ℕ)
        → id ≡ pos n
        → n ≡ ids P B num_cores c0 t
        → (j l : ℕ) (k : ℤ) → id_of (write t.workers i (identified id) j) ≡ some k
        → id_of (write t.workers i (identified id) l) ≡ some k
        → j ≡ l
    apart_after id n e c j l k f g = elim (ℕ_discrete j i) [
      | yes q ↦
          let mine = some-eq (rw (q, write_self t.workers i (identified id)) at f) in
          elim (ℕ_discrete l i) [
            | yes r ↦ q ∙ sym r
            | no ne ↦
                absurd
                  (not_next l id k n e mine c (rw (write_ne t.workers i l (identified id) ne) at g))
          ]
      | no ne ↦ elim (ℕ_discrete l i) [
        | yes r ↦ absurd (
            not_next j id k n e (some-eq (rw (r, write_self t.workers i (identified id)) at g)) c
              (rw (write_ne t.workers i j (identified id) ne) at f))
        | no nl ↦
            o.ids_apart j l k (rw (write_ne t.workers i j (identified id) ne) at f)
              (rw (write_ne t.workers i l (identified id) nl) at g)
      ]
    ]

    pub entry-some :
        (n : ℕ) → n < thread_count → (core : ℤ) × (entry affinity_map (pos n) ≡ some core)
    unfolding entry
    entry-some zero lt = (pos 1, refl)
    entry-some (suc zero) lt = (pos 2, refl)
    entry-some (suc (suc n)) lt = absurd (omega (arith, lt))

    -- A write of a stage with the same id.
    module _ (v : WorkerStage) (same_id : id_of v ≡ id_of (t.workers i))
        (same_has : has_id v ≡ has_id (t.workers i)) where
      pub still_ids : ids P B num_cores c0 t ≡ count has_id thread_count (write t.workers i v)
      still_ids = sym (count_same_at has_id thread_count i t.workers v same_has)

      pub still_below :
          (j : ℕ) (k : ℤ)
          → id_of (write t.workers i v j) ≡ some k
          → (n : ℕ) × (k ≡ pos n) × (n < count has_id thread_count (write t.workers i v))
      still_below j k f =
          rw (sym still_ids) (o.ids_below j k (sym (same_at id_of t.workers i v same_id j) ∙ f))

      pub still_apart :
          (j l : ℕ) (k : ℤ)
          → id_of (write t.workers i v j) ≡ some k
          → id_of (write t.workers i v l) ≡ some k
          → j ≡ l
      still_apart j l k f g =
          o.ids_apart j l k (sym (same_at id_of t.workers i v same_id j) ∙ f)
            (sym (same_at id_of t.workers i v same_id l) ∙ g)
