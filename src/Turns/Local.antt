-- ===== src/Turns/Local.antt =====
-- What each worker knows of the flags and of the counts, and how a step keeps it.
use rsj.Prelude.{
  ℕ, ◌+◌, ◌%◌, ◌≤◌, ◌<◌, ◌≡◌, ◌≢◌, true, false, refl, arith, write, if◌then◌else◌, ◌==◌, Bool-cases,
  inl, inr,
}
use rsj.Helpers.{prev_index, next_index}
use rsj.Sync.{OrderSync}
use rsj.Turns.Defs.{
  place, Pc, idle, fetched, half_ready, waiting, entered, inserting, waiting_sum, entered_sum,
  summing, Shared, unset_order, unset_order_sum, set_order, set_order_sum,
}

pub prev-place : (n : ℕ) → prev_index (place n) ≡ (n + 15) % 16
unfolding prev_index
prev-place n = omega arith

pub next-place : (n : ℕ) → next_index (place n) ≡ (n + 1) % 16
unfolding next_index
next-place n = omega arith

-- Whether a worker has an update, and which.
abbrev pub busy : Pc → ℕ
busy idle = 0
busy _ = 1

abbrev pub number : Pc → ℕ
number idle = 0
number (fetched n) = n
number (half_ready n) = n
number (waiting n) = n
number (entered n) = n
number (inserting n) = n
number (waiting_sum n) = n
number (entered_sum n) = n
number (summing n) = n

module _ (S : OrderSync) where
  open S use {Flag, is_set, set, unset}

  pub is_set-write_set :
      (f : ℕ → Flag) (i j : ℕ)
      → is_set (write f i (set (f i)) j) ≡ (if j == i then true else is_set (f j))
  is_set-write_set f i j = elim (Bool-cases (j == i)) [
    | inl e ↦ rw e (S.is_set-set (f i))
    | inr e ↦ rw e refl
  ]

  pub is_set-write_unset :
      (f : ℕ → Flag) (i j : ℕ)
      → is_set (write f i (unset (f i)) j) ≡ (if j == i then false else is_set (f j))
  is_set-write_unset f i j = elim (Bool-cases (j == i)) [
    | inl e ↦ rw e (S.is_set-unset (f i))
    | inr e ↦ rw e refl
  ]

  abbrev pub Closed : (ℕ → Flag) → ℕ → Type 0
  Closed f n = is_set (f (n % 16)) ≡ false

  -- A worker's update has not yet been inserted up to `inserting`, and from then on its sum has not been
  -- stored; in either section it is the next one. The flag of the next place is closed.
  abbrev pub Local : Shared S → Pc → Type 0
  Local s idle = Unit
  Local s (fetched n) = (s.inserted ≤ n) × (n < s.taken)
  Local s (half_ready n) = (s.inserted ≤ n) × (n < s.taken) × Closed s.order (n + 1)
  Local s (waiting n) =
      (s.inserted ≤ n) × (n < s.taken) × Closed s.order (n + 1) × Closed s.order_sum (n + 1)
  Local s (entered n) =
      (s.inserted ≡ n) × (n < s.taken) × Closed s.order (n + 1) × Closed s.order_sum (n + 1)
  Local s (inserting n) =
      (s.inserted ≡ n) × (n < s.taken) × Closed s.order (n + 1) × Closed s.order_sum (n + 1)
  Local s (waiting_sum n) = (n < s.inserted) × (s.summed ≤ n) × Closed s.order_sum (n + 1)
  Local s (entered_sum n) = (n < s.inserted) × (s.summed ≡ n) × Closed s.order_sum (n + 1)
  Local s (summing n) = (n < s.inserted) × (s.summed ≡ n) × Closed s.order_sum (n + 1)

  -- Two workers at `p` and `q`.
  pub record Inv (s : Shared S) (p q : Pc) : Type 0 where
    pub ordered : (s.summed ≤ s.inserted) × (s.inserted ≤ s.taken)
    pub open_order : is_set (s.order ((s.inserted + 15) % 16)) ≡ true
    pub closed_order : Closed s.order s.inserted
    pub open_sum : is_set (s.order_sum ((s.summed + 15) % 16)) ≡ true
    pub closed_sum : Closed s.order_sum s.summed
    pub first : Local s p
    pub second : Local s q
    pub distinct : busy p ≡ 1 → busy q ≡ 1 → number p ≢ number q
    pub count : s.taken ≡ s.summed + busy p + busy q

  -- The other worker's facts survive what a step writes.
  pub take-Local : (s : Shared S) (q : Pc) → Local s q → Local (record s { taken = s.taken + 1 }) q
  take-Local s idle h = tt
  take-Local s (fetched n) h = omega arith
  take-Local s (half_ready n) h = (h.0, omega arith, h.2)
  take-Local s (waiting n) h = (h.0, omega arith, h.2, h.3)
  take-Local s (entered n) h = (h.0, omega arith, h.2, h.3)
  take-Local s (inserting n) h = (h.0, omega arith, h.2, h.3)
  take-Local s (waiting_sum n) h = h
  take-Local s (entered_sum n) h = h
  take-Local s (summing n) h = h

  Closed-unset : (f : ℕ → Flag) (i n : ℕ) → Closed f n → Closed (write f i (unset (f i))) n
  Closed-unset f i n h = ground (arith, is_set-write_unset f i (n % 16))

  Closed-set : (f : ℕ → Flag) (i n : ℕ) → n % 16 ≢ i → Closed f n → Closed (write f i (set (f i))) n
  Closed-set f i n ne h = ground (arith, is_set-write_set f i (n % 16))

  pub unset_order-Local : (s : Shared S) (i : ℕ) (q : Pc) → Local s q → Local (unset_order S s i) q
  unset_order-Local s i idle h = tt
  unset_order-Local s i (fetched n) h = h
  unset_order-Local s i (half_ready n) h = (h.0, h.1, Closed-unset s.order i (n + 1) h.2)
  unset_order-Local s i (waiting n) h = (h.0, h.1, Closed-unset s.order i (n + 1) h.2, h.3)
  unset_order-Local s i (entered n) h = (h.0, h.1, Closed-unset s.order i (n + 1) h.2, h.3)
  unset_order-Local s i (inserting n) h = (h.0, h.1, Closed-unset s.order i (n + 1) h.2, h.3)
  unset_order-Local s i (waiting_sum n) h = h
  unset_order-Local s i (entered_sum n) h = h
  unset_order-Local s i (summing n) h = h

  pub unset_order_sum-Local :
      (s : Shared S) (i : ℕ) (q : Pc) → Local s q → Local (unset_order_sum S s i) q
  unset_order_sum-Local s i idle h = tt
  unset_order_sum-Local s i (fetched n) h = h
  unset_order_sum-Local s i (half_ready n) h = h
  unset_order_sum-Local s i (waiting n) h = (h.0, h.1, h.2, Closed-unset s.order_sum i (n + 1) h.3)
  unset_order_sum-Local s i (entered n) h = (h.0, h.1, h.2, Closed-unset s.order_sum i (n + 1) h.3)
  unset_order_sum-Local s i (inserting n) h =
      (h.0, h.1, h.2, Closed-unset s.order_sum i (n + 1) h.3)
  unset_order_sum-Local s i (waiting_sum n) h = (h.0, h.1, Closed-unset s.order_sum i (n + 1) h.2)
  unset_order_sum-Local s i (entered_sum n) h = (h.0, h.1, Closed-unset s.order_sum i (n + 1) h.2)
  unset_order_sum-Local s i (summing n) h = (h.0, h.1, Closed-unset s.order_sum i (n + 1) h.2)

  -- The insertion of `n` is over: another worker's update is not `n`, and at most two are taken.
  pub set_order-Local :
      (s : Shared S) (n : ℕ) (q : Pc)
      → s.inserted ≡ n
      → s.taken ≤ n + 2
      → (busy q ≡ 1 → number q ≢ n)
      → Local s q
      → Local (set_order S s (place n)) q
  set_order-Local s n idle e few ne h = tt
  set_order-Local s n (fetched m) e few ne h = let d = ne refl in omega arith
  set_order-Local s n (half_ready m) e few ne h =
      let d = ne refl in (omega arith, h.1, Closed-set s.order (place n) (m + 1) (omega arith) h.2)
  set_order-Local s n (waiting m) e few ne h =
      let d = ne refl in
      (omega arith, h.1, Closed-set s.order (place n) (m + 1) (omega arith) h.2, h.3)
  set_order-Local s n (entered m) e few ne h = absurd (ne refl (omega arith))
  set_order-Local s n (inserting m) e few ne h = absurd (ne refl (omega arith))
  set_order-Local s n (waiting_sum m) e few ne h = (omega arith, h.1, h.2)
  set_order-Local s n (entered_sum m) e few ne h = (omega arith, h.1, h.2)
  set_order-Local s n (summing m) e few ne h = (omega arith, h.1, h.2)

  -- The sum of `n` is over.
  pub set_order_sum-Local :
      (s : Shared S) (n : ℕ) (q : Pc)
      → s.summed ≡ n
      → n < s.inserted
      → s.taken ≤ n + 2
      → (busy q ≡ 1 → number q ≢ n)
      → s.inserted ≤ s.taken
      → Local s q
      → Local (set_order_sum S s (place n)) q
  set_order_sum-Local s n idle e lt few ne le h = tt
  set_order_sum-Local s n (fetched m) e lt few ne le h = h
  set_order_sum-Local s n (half_ready m) e lt few ne le h = h
  set_order_sum-Local s n (waiting m) e lt few ne le h =
      (h.0, h.1, h.2, Closed-set s.order_sum (place n) (m + 1) (omega arith) h.3)
  set_order_sum-Local s n (entered m) e lt few ne le h =
      (h.0, h.1, h.2, Closed-set s.order_sum (place n) (m + 1) (omega arith) h.3)
  set_order_sum-Local s n (inserting m) e lt few ne le h =
      (h.0, h.1, h.2, Closed-set s.order_sum (place n) (m + 1) (omega arith) h.3)
  set_order_sum-Local s n (waiting_sum m) e lt few ne le h =
      let d = ne refl in
      (h.0, omega arith, Closed-set s.order_sum (place n) (m + 1) (omega arith) h.2)
  set_order_sum-Local s n (entered_sum m) e lt few ne le h = absurd (ne refl (omega arith))
  set_order_sum-Local s n (summing m) e lt few ne le h = absurd (ne refl (omega arith))
