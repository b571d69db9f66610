-- ===== src/Tests/Turns.antt =====
-- Runs of the two workers over the flags (worker.cc, sync.h).
use rsj.Prelude.{◌≡◌, Bool, true, false, not, ◌&&◌, refl, arith, List, [], ◌∷◌}
use rsj.Helpers.{prev_index, next_index}
use rsj.Sync.Spin.{SpinLock, spin_sync}
use rsj.Sync.Atomic.{atomic_sync, sync_set_int, sync_unset_int}
use rsj.Turns.Defs.{
  initial_flags, Workers, Step, Reach, here, later, move_left, move_right, take, unset_next,
  unset_next_sum, enter, unset_own, set_own, enter_sum,
}
use rsj.Turns.Local.{number}
use rsj.Turns.Versions.{FlagCall, set_at, unset_at, flag_calls, versions_agree}
use rsj.Turns.Safety.{
  in_insertion, in_sum, pc_of, mutual_exclusion, insertion_in_order, sum_in_order, no_deadlock,
}

-- The left worker has taken update 0 and is in its section of the insertion; the right worker has taken
-- update 1 and waits.
abbrev first_in : (w : Workers atomic_sync) × Reach atomic_sync w
unfolding atomic_sync prev_index next_index sync_set_int sync_unset_int
first_in = (
  _,
  later
      (later
        (later
          (later
            (later
              (later (later (later here (move_left take)) (move_right take)) (move_left unset_next))
              (move_left unset_next_sum))
            (move_right unset_next))
          (move_right unset_next_sum))
        (move_left (enter refl)))
      (move_left unset_own),
)

-- Then the left worker hands over the insertion and starts the sum, and the right one inserts.
abbrev both_in : (w : Workers atomic_sync) × Reach atomic_sync w
unfolding prev_index next_index sync_set_int sync_unset_int first_in
both_in = (
  _,
  later (later (later first_in.1 (move_left set_own)) (move_left (enter_sum refl)))
      (move_right (enter refl)),
)

mutual_exclusion_example :
    ((in_insertion both_in.0.left && in_insertion both_in.0.right) ≡ false)
    × ((in_sum both_in.0.left && in_sum both_in.0.right) ≡ false)
mutual_exclusion_example = mutual_exclusion atomic_sync both_in.0 both_in.1

insertion_in_order_example : number (pc_of both_in.0 false) ≡ both_in.0.shared.inserted
unfolding both_in
insertion_in_order_example = insertion_in_order atomic_sync both_in.0 false both_in.1 refl

sum_in_order_example : number (pc_of both_in.0 true) ≡ both_in.0.shared.summed
unfolding both_in
sum_in_order_example = sum_in_order atomic_sync both_in.0 true both_in.1 refl

no_deadlock_example :
    (w' : Workers atomic_sync) × Step atomic_sync first_in.0 w'
    × (w'.shared.taken ≡ first_in.0.shared.taken)
unfolding first_in
no_deadlock_example = no_deadlock atomic_sync first_in.0 first_in.1 (omega arith)

-- A lock that only knows whether it is taken.
abbrev bool_lock : SpinLock
bool_lock = record {
  Lock = Bool;
  initializer = false;
  locked = λ l. l;
  lock = λ l. true;
  trylock = λ l. (true, not l);
  unlock = λ l. false;
  locked-initializer = refl;
  locked-lock = λ l. refl;
  locked-trylock = λ l. refl;
  trylock_free = λ l. refl;
  locked-unlock = λ l. refl;
}

abbrev some_calls : List FlagCall
some_calls = unset_at 1 ∷ unset_at 0 ∷ set_at 0 ∷ unset_at 2 ∷ []

versions_agree_example :
    (spin_sync bool_lock).is_set
      (flag_calls (spin_sync bool_lock) some_calls (initial_flags (spin_sync bool_lock)) 0)
    ≡ atomic_sync.is_set (flag_calls atomic_sync some_calls (initial_flags atomic_sync) 0)
versions_agree_example = versions_agree bool_lock some_calls 0
