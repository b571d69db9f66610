-- ===== src/Turns/Invariant.antt =====
-- The invariant holds at the start and is kept by every step of either worker.
use rsj.Prelude.{ℕ, ◌+◌, ◌%◌, ◌≡◌, ◌≢◌, true, refl, sym, subst, arith}
use native.Mathlib.Decide.{ℕ_discrete}
use rsj.Helpers.{prev_index, next_index}
use rsj.Sync.{OrderSync}
use rsj.Turns.Defs.{
  place, Pc, idle, fetched, waiting, inserting, waiting_sum, summing, Shared, Move, take,
  unset_next, unset_next_sum, enter, unset_own, set_own, enter_sum, unset_own_sum, set_own_sum,
  unset_order, unset_order_sum, set_order, set_order_sum, Workers, Step, move_left, move_right,
  start, Reach, here, later,
}
use rsj.Turns.Flags.{
  busy-le, number_range, open_unset, Closed-unset, own_unset, own_set, Closed-set,
}
use rsj.Turns.Local.{
  prev-place, next-place, busy, number, Closed, Local, Inv, take-Local, unset_order-Local,
  unset_order_sum-Local, set_order-Local, set_order_sum-Local,
}

module _ (S : OrderSync) where
  open S use {is_set}

  pub swap-Inv : (s : Shared S) (p q : Pc) → Inv S s p q → Inv S s q p
  swap-Inv s p q v = record {
    ordered = v.ordered;
    open_order = v.open_order;
    closed_order = v.closed_order;
    open_sum = v.open_sum;
    closed_sum = v.closed_sum;
    first = v.second;
    second = v.first;
    distinct = λ a b e. v.distinct b a (sym e);
    count = omega (arith, v.count);
  }

  module _ (s : Shared S) (p p' q : Pc) (v : Inv S s p q)
      (same : (busy p' ≡ busy p) × (number p' ≡ number p)) where
    still_distinct : busy p' ≡ 1 → busy q ≡ 1 → number p' ≢ number q
    still_distinct a b = omega (arith, v.distinct (omega arith) b)

    -- A step that only reads the flags.
    stay-Inv : Local S s p' → Inv S s p' q
    stay-Inv h = record {
      ordered = v.ordered;
      open_order = v.open_order;
      closed_order = v.closed_order;
      open_sum = v.open_sum;
      closed_sum = v.closed_sum;
      first = h;
      second = v.second;
      distinct = still_distinct;
      count = omega (arith, v.count);
    }

    -- A step that unsets a flag other than the open one.
    unset_order-Inv :
        (i : ℕ)
        → (s.inserted + 15) % 16 ≢ i
        → Local S (unset_order S s i) p'
        → Inv S (unset_order S s i) p' q
    unset_order-Inv i ne h = record {
      ordered = v.ordered;
      open_order = open_unset S s.order i _ ne v.open_order;
      closed_order = Closed-unset S s.order i _ v.closed_order;
      open_sum = v.open_sum;
      closed_sum = v.closed_sum;
      first = h;
      second = unset_order-Local S s i q v.second;
      distinct = still_distinct;
      count = omega (arith, v.count);
    }

    unset_order_sum-Inv :
        (i : ℕ)
        → (s.summed + 15) % 16 ≢ i
        → Local S (unset_order_sum S s i) p'
        → Inv S (unset_order_sum S s i) p' q
    unset_order_sum-Inv i ne h = record {
      ordered = v.ordered;
      open_order = v.open_order;
      closed_order = v.closed_order;
      open_sum = open_unset S s.order_sum i _ ne v.open_sum;
      closed_sum = Closed-unset S s.order_sum i _ v.closed_sum;
      first = h;
      second = unset_order_sum-Local S s i q v.second;
      distinct = still_distinct;
      count = omega (arith, v.count);
    }

  -- The two ends of a section, which open the next turn.
  set_own-Inv :
      (s : Shared S) (n : ℕ) (q : Pc)
      → Inv S s (inserting n) q
      → Inv S (set_order S s (place n)) (waiting_sum n) q
  set_own-Inv s n q v = record {
    ordered = omega (arith, v.ordered, v.first);
    open_order = own_set S s.order (place n) _ (omega (arith, v.first));
    closed_order =
        Closed-set S s.order (place n) _ (omega (arith, v.first))
          (subst (λ k. Closed S s.order (k + 1)) (sym v.first.0) v.first.2);
    open_sum = v.open_sum;
    closed_sum = v.closed_sum;
    first = (omega (arith, v.first), omega (arith, v.first, v.ordered), v.first.3);
    second =
        set_order-Local S s n q v.first.0 (omega (arith, v.first, v.ordered, v.count, busy-le S q))
          (λ b e. v.distinct refl b (sym e)) v.second;
    distinct = v.distinct;
    count = v.count;
  }

  set_own_sum-Inv :
      (s : Shared S) (n : ℕ) (q : Pc)
      → Inv S s (summing n) q
      → Inv S (set_order_sum S s (place n)) idle q
  set_own_sum-Inv s n q v = record {
    ordered = omega (arith, v.ordered, v.first);
    open_order = v.open_order;
    closed_order = v.closed_order;
    open_sum = own_set S s.order_sum (place n) _ (omega (arith, v.first));
    closed_sum =
        Closed-set S s.order_sum (place n) _ (omega (arith, v.first))
          (subst (λ k. Closed S s.order_sum (k + 1)) (sym v.first.1) v.first.2);
    first = tt;
    second =
        set_order_sum-Local S s n q v.first.1 v.first.0
          (omega (arith, v.first, v.ordered, v.count, busy-le S q))
          (λ b e. v.distinct refl b (sym e)) v.ordered.1 v.second;
    distinct = λ a. absurd (omega arith);
    count = omega (arith, v.count);
  }

  -- A worker that passes the wait for its turn has the next update.
  enter_in_turn :
      (s : Shared S) (n : ℕ) (q : Pc)
      → Inv S s (waiting n) q
      → is_set (s.order (prev_index (place n))) ≡ true
      → s.inserted ≡ n
  enter_in_turn s n q v g = elim (ℕ_discrete s.inserted n) [
    | yes e ↦ e
    | no ne ↦
        let at : (n + 15) % 16 ≡ s.inserted % 16 =
          omega (arith, v.ordered, v.first, v.count, busy-le S q, ne) in
        cc (g, v.closed_order, prev-place n, at)
  ]

  enter_sum_in_turn :
      (s : Shared S) (n : ℕ) (q : Pc)
      → Inv S s (waiting_sum n) q
      → is_set (s.order_sum (prev_index (place n))) ≡ true
      → s.summed ≡ n
  enter_sum_in_turn s n q v g = elim (ℕ_discrete s.summed n) [
    | yes e ↦ e
    | no ne ↦
        let at : (n + 15) % 16 ≡ s.summed % 16 =
          omega (arith, v.ordered, v.first, v.count, busy-le S q, ne) in
        cc (g, v.closed_sum, prev-place n, at)
  ]

  take-Inv :
      (s : Shared S) (q : Pc)
      → Inv S s idle q
      → Inv S (record s { taken = s.taken + 1 }) (fetched s.taken) q
  take-Inv s q v = record {
    ordered = omega arith;
    open_order = v.open_order;
    closed_order = v.closed_order;
    open_sum = v.open_sum;
    closed_sum = v.closed_sum;
    first = omega arith;
    second = take-Local S s q v.second;
    distinct = λ a b. omega (arith, number_range S s q v.ordered v.second b);
    count = omega arith;
  }

  pub Move-Inv : (s s' : Shared S) (p p' q : Pc) → Move S s p s' p' → Inv S s p q → Inv S s' p' q
  Move-Inv s s' p p' q take v = take-Inv s q v
  Move-Inv s s' p p' q (unset_next {n}) v =
      unset_order-Inv s p p' q v (refl, refl) (next_index (place n))
        (omega (arith, next-place n, v.ordered, v.first, v.count, busy-le S q))
        (v.first.0, v.first.1, own_unset S s.order (next_index (place n)) _ (sym (next-place n)))
  Move-Inv s s' p p' q (unset_next_sum {n}) v =
      unset_order_sum-Inv s p p' q v (refl, refl) (next_index (place n))
        (omega (arith, next-place n, v.ordered, v.first, v.count, busy-le S q))
        (
          v.first.0,
          v.first.1,
          v.first.2,
          own_unset S s.order_sum (next_index (place n)) _ (sym (next-place n)),
        )
  Move-Inv s s' p p' q (enter {n} g) v =
      stay-Inv s p p' q v (refl, refl) (enter_in_turn s n q v g, v.first.1, v.first.2, v.first.3)
  Move-Inv s s' p p' q (unset_own {n}) v =
      unset_order-Inv s p p' q v (refl, refl) (place n) (omega (arith, v.first))
        (v.first.0, v.first.1, Closed-unset S s.order (place n) _ v.first.2, v.first.3)
  Move-Inv s s' p p' q (set_own {n}) v = set_own-Inv s n q v
  Move-Inv s s' p p' q (enter_sum {n} g) v =
      stay-Inv s p p' q v (refl, refl) (v.first.0, enter_sum_in_turn s n q v g, v.first.2)
  Move-Inv s s' p p' q (unset_own_sum {n}) v =
      unset_order_sum-Inv s p p' q v (refl, refl) (place n) (omega (arith, v.first))
        (v.first.0, v.first.1, Closed-unset S s.order_sum (place n) _ v.first.2)
  Move-Inv s s' p p' q (set_own_sum {n}) v = set_own_sum-Inv s n q v

  pub Step-Inv :
      (w w' : Workers S)
      → Step S w w'
      → Inv S w.shared w.left w.right
      → Inv S w'.shared w'.left w'.right
  Step-Inv w w' (move_left {s} {p} mv) v = Move-Inv w.shared s w.left p w.right mv v
  Step-Inv w w' (move_right {s} {p} mv) v =
      swap-Inv s p w.left
        (Move-Inv w.shared s w.right p w.left mv (swap-Inv w.shared w.left w.right v))

  start-Inv : Inv S (start S).shared idle idle
  start-Inv = record {
    ordered = omega arith;
    open_order = S.is_set-initial_last;
    closed_order = S.is_set-initial;
    open_sum = S.is_set-initial_last;
    closed_sum = S.is_set-initial;
    first = tt;
    second = tt;
    distinct = λ a. absurd (omega arith);
    count = omega arith;
  }

  pub Reach-Inv : (w : Workers S) → Reach S w → Inv S w.shared w.left w.right
  Reach-Inv w here = start-Inv
  Reach-Inv w (later {w = v} r st) = Step-Inv v w st (Reach-Inv v r)
