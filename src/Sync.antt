-- ===== src/Sync.antt =====
-- sync.h: the flags `order` and `order_sum`, by which the threads take turns. The file has two
-- versions of its six functions: SPIN, over spin locks of Concurrency Kit (the build's choice), and
-- ATOMIC, over integers and the compiler's atomic builtins. `order` and `order_sum` have the same
-- functions, so each stands here once, over one flag.
pub mod Spin
pub mod Atomic
use rsj.Prelude.{◌≡◌, Bool, true, false}

-- What the worker needs of a flag, whichever version is compiled: `is_set` is the test that ends
-- `wait_until_set_order`, `set` is `sync_set_order`, `unset` is `sync_unset_order`, and
-- `initial` and `initial_last` are the flags that `initialize_c_style` leaves.
pub record OrderSync : Type 1 where
  pub Flag : Type 0
  pub is_set : Flag → Bool
  pub set : Flag → Flag
  pub unset : Flag → Flag
  pub initial : Flag
  pub initial_last : Flag
  pub is_set-set : (f : Flag) → is_set (set f) ≡ true
  pub is_set-unset : (f : Flag) → is_set (unset f) ≡ false
  pub is_set-initial : is_set initial ≡ false
  pub is_set-initial_last : is_set initial_last ≡ true
