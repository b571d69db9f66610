-- ===== src/Turns/Safety.antt =====
-- What holds in every state that the two workers of the build can reach.
use rsj.Prelude.{◌+◌, ◌<◌, ◌≡◌, true, false, Bool, ◌&&◌, refl, sym, ap, ◌∙◌, ◌⊎◌, inl, inr, arith}
use native.Mathlib.Decide.{ℕ_discrete}
use rsj.Sync.{OrderSync}
use rsj.Turns.Defs.{
  Pc, idle, fetched, half_ready, waiting, entered, inserting, waiting_sum, entered_sum, summing,
  Workers, Step, move_left, move_right, Reach, Shared, Move, unset_next, unset_next_sum, enter,
  unset_own, set_own, enter_sum, unset_own_sum, set_own_sum,
}
use rsj.Turns.Local.{busy, number, Local, Inv, prev-place}
use rsj.Turns.Flags.{busy-le, number_range}
use rsj.Turns.Invariant.{Reach-Inv, swap-Inv}

-- Whether a worker is between the wait for its turn and the flag that ends it, for the insertion and
-- for the sum.
abbrev pub in_insertion : Pc → Bool
in_insertion (entered n) = true
in_insertion (inserting n) = true
in_insertion _ = false

abbrev pub in_sum : Pc → Bool
in_sum (entered_sum n) = true
in_sum (summing n) = true
in_sum _ = false

never_both : (a b : Bool) → (a ≡ true → b ≡ true → ⊥) → (a && b) ≡ false
never_both true true h = absurd (h refl refl)
never_both true false h = refl
never_both false b h = refl

abbrev pub pc_of : {S : OrderSync} → Workers S → Bool → Pc
pc_of w true = w.left
pc_of w false = w.right

module _ (S : OrderSync) where
  insertion_number :
      (s : Shared S) (p : Pc)
      → Local S s p
      → in_insertion p ≡ true
      → (busy p ≡ 1) × (number p ≡ s.inserted)
  insertion_number s (entered n) h e = omega arith
  insertion_number s (inserting n) h e = omega arith
  insertion_number s p h e = absurd (cc)

  sum_number :
      (s : Shared S) (p : Pc) → Local S s p → in_sum p ≡ true → (busy p ≡ 1) × (number p ≡ s.summed)
  sum_number s (entered_sum n) h e = omega arith
  sum_number s (summing n) h e = omega arith
  sum_number s p h e = absurd (cc)

  -- In no reachable state are both workers between the wait for their turn and the flag that ends it,
  -- neither in the section of the insertion nor in that of the sum.
  pub mutual_exclusion :
      (w : Workers S)
      → Reach S w
      → ((in_insertion w.left && in_insertion w.right) ≡ false)
        × ((in_sum w.left && in_sum w.right) ≡ false)
  mutual_exclusion w r =
      let v = Reach-Inv S w r in
      (
        never_both _ _ λ a b.
            let x = insertion_number w.shared w.left v.first a in
            let y = insertion_number w.shared w.right v.second b in
            v.distinct x.0 y.0 (x.1 ∙ sym y.1),
        never_both _ _ λ a b.
            let x = sum_number w.shared w.left v.first a in
            let y = sum_number w.shared w.right v.second b in v.distinct x.0 y.0 (x.1 ∙ sym y.1),
      )

  pc_Local : (w : Workers S) (is_left : Bool) → Reach S w → Local S w.shared (pc_of w is_left)
  pc_Local w true r = (Reach-Inv S w r).first
  pc_Local w false r = (Reach-Inv S w r).second

  -- In every reachable state, a worker in the section of the insertion has the update that follows those
  -- inserted so far: the books change in the order of the updates.
  pub insertion_in_order :
      (w : Workers S) (is_left : Bool)
      → Reach S w
      → in_insertion (pc_of w is_left) ≡ true
      → number (pc_of w is_left) ≡ w.shared.inserted
  insertion_in_order w is_left r h =
      (insertion_number w.shared (pc_of w is_left) (pc_Local w is_left r) h).1

  -- In every reachable state, a worker in the section of the sum has the update that follows those whose
  -- sum is stored: the sums are stored in the order of the updates.
  pub sum_in_order :
      (w : Workers S) (is_left : Bool)
      → Reach S w
      → in_sum (pc_of w is_left) ≡ true
      → number (pc_of w is_left) ≡ w.shared.summed
  sum_in_order w is_left r h = (sum_number w.shared (pc_of w is_left) (pc_Local w is_left r) h).1

  -- A step of one worker that takes no update from the ring.
  abbrev Progress : Shared S → Pc → Type 0
  Progress s p = (s' : Shared S) × (p' : Pc) × Move S s p s' p' × (s'.taken ≡ s.taken)

  first_moves :
      (s : Shared S) (p q : Pc) → Inv S s p q → busy p ≡ 1 → number p ≡ s.summed → Progress s p
  first_moves s idle q v b e = absurd (omega arith)
  first_moves s (fetched n) q v b e = (_, _, unset_next, refl)
  first_moves s (half_ready n) q v b e = (_, _, unset_next_sum, refl)
  first_moves s (waiting n) q v b e = (
    _,
    _,
    enter (
        ap (λ k. S.is_set (s.order k)) (prev-place n ∙ omega (arith, e, v.ordered, v.first))
        ∙ v.open_order),
    refl,
  )
  first_moves s (entered n) q v b e = (_, _, unset_own, refl)
  first_moves s (inserting n) q v b e = (_, _, set_own, refl)
  first_moves s (waiting_sum n) q v b e = (
    _,
    _,
    enter_sum (ap (λ k. S.is_set (s.order_sum k)) (prev-place n ∙ omega (arith, e)) ∙ v.open_sum),
    refl,
  )
  first_moves s (entered_sum n) q v b e = (_, _, unset_own_sum, refl)
  first_moves s (summing n) q v b e = (_, _, set_own_sum, refl)

  -- Some worker has the first update whose sum is not yet stored.
  pub has_first :
      (s : Shared S) (p q : Pc)
      → Inv S s p q
      → 0 < busy p + busy q
      → ((busy p ≡ 1) × (number p ≡ s.summed)) ⊎ ((busy q ≡ 1) × (number q ≡ s.summed))
  has_first s p q v h = elim (ℕ_discrete (busy p) 1) [
    | yes b ↦
        let a = number_range S s p v.ordered v.first b in
        elim (ℕ_discrete (number p) s.summed) [
          | yes e ↦ inl (b, e)
          | no ne ↦
              let c : busy q ≡ 1 = omega (arith, v.count, a, ne, busy-le S q) in
              inr (
                c,
                omega (
                  arith,
                  v.count,
                  a,
                  ne,
                  number_range S s q v.ordered v.second c,
                  v.distinct b c,
                ),
              )
        ]
    | no nb ↦
        let c : busy q ≡ 1 = omega (arith, busy-le S p, busy-le S q) in
        inr (c, omega (arith, v.count, busy-le S p, number_range S s q v.ordered v.second c))
  ]

  -- No deadlock: in every reachable state in which some worker has an update, one of the workers has a
  -- step that takes no further update from the ring.
  pub no_deadlock :
      (w : Workers S)
      → Reach S w
      → 0 < busy w.left + busy w.right
      → (w' : Workers S) × Step S w w' × (w'.shared.taken ≡ w.shared.taken)
  no_deadlock w r h = elim (has_first w.shared w.left w.right v h) [
    | inl (b, e) ↦
        let (s', p', mv, same) = first_moves w.shared w.left w.right v b e in
        (_, move_left mv, same)
    | inr (b, e) ↦
        let (s', p', mv, same) = first_moves w.shared w.right w.left (swap-Inv S _ _ _ v) b e in
        (_, move_right mv, same)
  ]
    where
      v : Inv S w.shared w.left w.right
      v = Reach-Inv S w r
