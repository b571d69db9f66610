-- ===== src/Sync/Atomic.antt =====
-- sync.h with ATOMIC: a flag is an `int`, set at 1. The builtins are single atomic accesses:
-- `__sync_bool_compare_and_swap(p, 0, 0)` tells whether `*p` is 0 and leaves it, and
-- `__sync_lock_test_and_set(p, v)` stores `v`; its result is not read.
use rsj.Prelude.{◌≡◌, refl, Bool, true, false, not}
use rsj.Prelude.Int.{ℤ, pos, eqb_ℤ}
use rsj.Sync.{OrderSync}

-- The test that ends the loop of `wait_until_set_order`: the compare-and-swap has failed.
abbrev pub int_is_set : ℤ → Bool
int_is_set flag = not (eqb_ℤ flag (pos 0))

unfoldable pub sync_set_int : ℤ → ℤ
sync_set_int flag = pos 1

unfoldable pub sync_unset_int : ℤ → ℤ
sync_unset_int flag = pos 0

pub set-is_set : (flag : ℤ) → int_is_set (sync_set_int flag) ≡ true
unfolding sync_set_int
set-is_set flag = refl

pub unset-is_set : (flag : ℤ) → int_is_set (sync_unset_int flag) ≡ false
unfolding sync_unset_int
unset-is_set flag = refl

-- The flags of the ATOMIC version: all zero but the last, which `initialize_c_style` makes 1.
unfoldable pub atomic_sync : OrderSync
atomic_sync = record {
  Flag = ℤ;
  is_set = int_is_set;
  set = sync_set_int;
  unset = sync_unset_int;
  initial = pos 0;
  initial_last = pos 1;
  is_set-set = set-is_set;
  is_set-unset = unset-is_set;
  is_set-initial = refl;
  is_set-initial_last = refl;
}
