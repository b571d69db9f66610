-- ===== src/Turns/Flags.antt =====
-- What a write does to the tests of the flags, and the bounds of a worker's number.
use rsj.Prelude.{ℕ, ◌≤◌, ◌<◌, ◌≡◌, ◌≢◌, true, false, arith, write}
use rsj.Sync.{OrderSync}
use rsj.Turns.Defs.{
  Pc, idle, fetched, half_ready, waiting, entered, inserting, waiting_sum, entered_sum, summing,
  Shared,
}
use rsj.Turns.Local.{busy, number, is_set-write_set, is_set-write_unset, Local}

module _ (S : OrderSync) where
  open S use {Flag, is_set, set, unset}

  -- Each worker has at most one update, and one that is taken and whose sum is not stored.
  pub busy-le : (p : Pc) → busy p ≤ 1
  busy-le idle = omega arith
  busy-le (fetched n) = omega arith
  busy-le _ = omega arith

  pub number_range :
      (s : Shared S) (q : Pc)
      → (s.summed ≤ s.inserted) × (s.inserted ≤ s.taken)
      → Local S s q
      → busy q ≡ 1
      → (s.summed ≤ number q) × (number q < s.taken)
  number_range s idle o h b = absurd (omega arith)
  number_range s (fetched n) o h b = omega arith
  number_range s (half_ready n) o h b = omega arith
  number_range s (waiting n) o h b = omega arith
  number_range s (entered n) o h b = omega arith
  number_range s (inserting n) o h b = omega arith
  number_range s (waiting_sum n) o h b = omega arith
  number_range s (entered_sum n) o h b = omega arith
  number_range s (summing n) o h b = omega arith

  pub open_unset :
      (f : ℕ → Flag) (i j : ℕ)
      → j ≢ i
      → is_set (f j) ≡ true
      → is_set (write f i (unset (f i)) j) ≡ true
  open_unset f i j ne h = ground (arith, is_set-write_unset S f i j)

  pub Closed-unset :
      (f : ℕ → Flag) (i j : ℕ) → is_set (f j) ≡ false → is_set (write f i (unset (f i)) j) ≡ false
  Closed-unset f i j h = ground (arith, is_set-write_unset S f i j)

  pub own_unset : (f : ℕ → Flag) (i j : ℕ) → j ≡ i → is_set (write f i (unset (f i)) j) ≡ false
  own_unset f i j e = ground (arith, is_set-write_unset S f i j)

  pub own_set : (f : ℕ → Flag) (i j : ℕ) → j ≡ i → is_set (write f i (set (f i)) j) ≡ true
  own_set f i j e = ground (arith, is_set-write_set S f i j)

  pub Closed-set :
      (f : ℕ → Flag) (i j : ℕ)
      → j ≢ i
      → is_set (f j) ≡ false
      → is_set (write f i (set (f i)) j) ≡ false
  Closed-set f i j ne h = ground (arith, is_set-write_set S f i j)
