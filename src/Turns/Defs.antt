-- ===== src/Turns/Defs.antt =====
-- The steps of one worker and of two. A step is one access to a flag or to the ring; accesses to the
-- shared state are taken to be sequentially consistent.
use rsj.Prelude.{ℕ, ◌+◌, ◌-◌, ◌%◌, ◌≡◌, true, ◌==◌, if◌then◌else◌, write}
use rsj.Structures.{history_size}
use rsj.Helpers.{prev_index, next_index}
use rsj.Sync.{OrderSync}

abbrev pub place : ℕ → ℕ
place n = n % history_size

-- `order` and `order_sum`, and how many updates the workers have taken from the ring. How many have
-- been inserted, and have their sum stored, is recorded here, and read by no step.
pub record SharedOf (Flag : Type 0) : Type 0 where
  pub order : ℕ → Flag
  pub order_sum : ℕ → Flag
  pub taken : ℕ
  pub inserted : ℕ
  pub summed : ℕ

-- Where a worker stands in the loop of `worker_start`, with its update.
pub data Pc : Type 0 where
  idle : Pc  -- before ck_ring_dequeue_spmc
  fetched : ℕ → Pc  -- before sync_unset_order (next_index …)
  half_ready : ℕ → Pc  -- before sync_unset_order_sum (next_index …)
  waiting : ℕ → Pc  -- in wait_until_set_order
  entered : ℕ → Pc  -- before sync_unset_order of its own place
  inserting : ℕ → Pc  -- in bids_insert or asks_insert, up to sync_set_order
  waiting_sum : ℕ → Pc  -- after the insertion, up to the end of wait_until_set_order_sum
  entered_sum : ℕ → Pc  -- before sync_unset_order_sum of its own place
  summing : ℕ → Pc  -- in compute_return_fp_i or history_shift, up to sync_set_order_sum

module _ (S : OrderSync) where
  open S use {Flag, is_set, set, unset}

  abbrev pub Shared : Type 0
  Shared = SharedOf Flag

  -- The writes of `sync_unset_order` and `sync_set_order`, and of their twins.
  abbrev pub unset_order : Shared → ℕ → Shared
  unset_order s i = record s { order = write s.order i (unset (s.order i)) }

  abbrev pub unset_order_sum : Shared → ℕ → Shared
  unset_order_sum s i = record s { order_sum = write s.order_sum i (unset (s.order_sum i)) }

  abbrev pub set_order : Shared → ℕ → Shared
  set_order s i = record s { order = write s.order i (set (s.order i)); inserted = s.inserted + 1 }

  abbrev pub set_order_sum : Shared → ℕ → Shared
  set_order_sum s i = record s {
    order_sum = write s.order_sum i (set (s.order_sum i));
    summed = s.summed + 1;
  }

  -- One step of one worker. The rounds of a busy loop that does not end change nothing and are left
  -- out.
  pub data Move (s : Shared) : Pc → Shared → Pc → Type 0 where
    take : Move s idle (record s { taken = s.taken + 1 }) (fetched s.taken)
    unset_next : {n : ℕ} → Move s (fetched n) (unset_order s (next_index (place n))) (half_ready n)
    unset_next_sum :
        {n : ℕ} → Move s (half_ready n) (unset_order_sum s (next_index (place n))) (waiting n)
    enter :
        {n : ℕ} → is_set (s.order (prev_index (place n))) ≡ true → Move s (waiting n) s (entered n)
    unset_own : {n : ℕ} → Move s (entered n) (unset_order s (place n)) (inserting n)
    set_own : {n : ℕ} → Move s (inserting n) (set_order s (place n)) (waiting_sum n)
    enter_sum :
        {n : ℕ}
        → is_set (s.order_sum (prev_index (place n))) ≡ true
        → Move s (waiting_sum n) s (entered_sum n)
    unset_own_sum : {n : ℕ} → Move s (entered_sum n) (unset_order_sum s (place n)) (summing n)
    set_own_sum : {n : ℕ} → Move s (summing n) (set_order_sum s (place n)) idle

  -- Two workers; either may move.
  pub record Workers : Type 0 where
    pub shared : Shared
    pub left : Pc
    pub right : Pc

  pub data Step (w : Workers) : Workers → Type 0 where
    move_left :
        {s : Shared} {p : Pc}
        → Move w.shared w.left s p
        → Step w (record { shared = s; left = p; right = w.right })
    move_right :
        {s : Shared} {p : Pc}
        → Move w.shared w.right s p
        → Step w (record { shared = s; left = w.left; right = p })

  -- What initialize_c_style leaves: all flags are unset but the last.
  abbrev pub initial_flags : ℕ → Flag
  initial_flags i = if i == (history_size - 1) then S.initial_last else S.initial

  abbrev pub start : Workers
  start = record {
    shared = record {
      order = initial_flags;
      order_sum = initial_flags;
      taken = 0;
      inserted = 0;
      summed = 0;
    };
    left = idle;
    right = idle;
  }

  -- The states that the two workers can reach.
  pub data Reach : Workers → Type 0 where
    here : Reach start
    later : {w v : Workers} → Reach w → Step w v → Reach v
