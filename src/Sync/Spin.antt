-- ===== src/Sync/Spin.antt =====
-- sync.h and structures.h with SPIN and FAS: a flag is a spin lock, and it is set while the lock is
-- free. Concurrency Kit is not part of the repository: its lock is a parameter.
use rsj.Prelude.{◌≡◌, Bool, true, false, not, ap}
use rsj.Sync.{OrderSync}

-- `ck_spinlock_fas_t`. `lock` is `lock_lock` once it returns, `trylock` returns whether it took the
-- lock; the laws are the documented effect of each function on `locked`.
pub record SpinLock : Type 1 where
  pub Lock : Type 0
  pub initializer : Lock
  pub locked : Lock → Bool
  pub lock : Lock → Lock
  pub trylock : Lock → Lock × Bool
  pub unlock : Lock → Lock
  pub locked-initializer : locked initializer ≡ false
  pub locked-lock : (l : Lock) → locked (lock l) ≡ true
  pub locked-trylock : (l : Lock) → locked (trylock l).0 ≡ true
  pub trylock_free : (l : Lock) → (trylock l).1 ≡ not (locked l)
  pub locked-unlock : (l : Lock) → locked (unlock l) ≡ false

module _ (S : SpinLock) where
  open S use {Lock, initializer, locked, lock, trylock, unlock}

  -- The test that ends the loop of `wait_until_set_order`.
  abbrev pub lock_is_set : Lock → Bool
  lock_is_set l = not (locked l)

  pub sync_set_lock : Lock → Lock
  sync_set_lock l = unlock l

  -- The result of `trylock` is not read.
  pub sync_unset_lock : Lock → Lock
  sync_unset_lock l = (trylock l).0

  -- Each lock is initialised and taken; the last is then released.
  pub initial_lock : Lock
  initial_lock = lock initializer

  pub initial_last_lock : Lock
  initial_last_lock = unlock (lock initializer)

  set-is_set : (l : Lock) → lock_is_set (sync_set_lock l) ≡ true
  unfolding sync_set_lock
  set-is_set l = ap not (S.locked-unlock l)

  unset-is_set : (l : Lock) → lock_is_set (sync_unset_lock l) ≡ false
  unfolding sync_unset_lock
  unset-is_set l = ap not (S.locked-trylock l)

  initial-is_set : lock_is_set initial_lock ≡ false
  unfolding initial_lock
  initial-is_set = ap not (S.locked-lock initializer)

  initial_last-is_set : lock_is_set initial_last_lock ≡ true
  unfolding initial_last_lock
  initial_last-is_set = ap not (S.locked-unlock (lock initializer))

  -- The flags of the SPIN version.
  unfoldable pub spin_sync : OrderSync
  unfolding sync_set_lock sync_unset_lock initial_lock initial_last_lock set-is_set unset-is_set
      initial-is_set initial_last-is_set
  spin_sync = record {
    Flag = Lock;
    is_set = lock_is_set;
    set = sync_set_lock;
    unset = sync_unset_lock;
    initial = initial_lock;
    initial_last = initial_last_lock;
    is_set-set = set-is_set;
    is_set-unset = unset-is_set;
    is_set-initial = initial-is_set;
    is_set-initial_last = initial_last-is_set;
  }
