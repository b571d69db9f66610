-- ===== src/Threads/Neighbours.antt =====
-- The two workers have neighbouring updates, so where no neighbours are of the same instrument, neither
-- worker changes the histories of the other's instrument.
use rsj.Prelude.{ℕ, suc, ◌+◌, ◌%◌, ◌<◌, ◌≤◌, ◌≡◌, ◌≢◌, refl, sym, ◌∙◌, Option, arith}
use native.Mathlib.Decide.{ℕ_discrete}
use rsj.Structures.{specific_history_size}
use rsj.Platform.{Platform}
use rsj.Producer.{Update}
use rsj.Turns.Local.{busy, number, Local, Inv}
use rsj.Turns.Flags.{number_range, busy-le}
use rsj.Threads.Places.{earlier, last_place, last_place-own, last_place-other}
use rsj.Threads.Lags.{Alternates, Elsewhere}
use rsj.Threads.Defs.{Stage, updating, passing, copying, reading, World}
use rsj.Threads.Links.{pc_of_stage, shared_of, IsNumbered, HasUpdate}
use rsj.Threads.Frame.{pending, lagging}

module _ (P : Platform) (feed : ℕ → Update) (alternates : Alternates feed) where
  open P.doubles use {Double}

  apart : (m n : ℕ) → m ≢ n → m < n + 2 → n < m + 2 → (feed n).instrument ≢ (feed m).instrument
  apart m n ne a b = elim (ℕ_discrete m (suc n)) [
    | yes e ↦ rw e (alternates n)
    | no nx ↦
        let next : n ≡ suc m = omega (arith, ne, nx, a, b) in rw next (λ e. alternates m (sym e))
  ]

  module _ (p q : Stage Double) (w : World P)
      (i : Inv P.sync (shared_of P feed w) (pc_of_stage p) (pc_of_stage q))
      (b : busy (pc_of_stage p) ≡ 1) where
    abbrev n : ℕ
    n = number (pc_of_stage p)

    near :
        busy (pc_of_stage q) ≡ 1 → (feed n).instrument ≢ (feed (number (pc_of_stage q))).instrument
    near c =
        let s = number_range P.sync (shared_of P feed w) (pc_of_stage p) i.ordered i.first b in
        let t = number_range P.sync (shared_of P feed w) (pc_of_stage q) i.ordered i.second c in
        apart (number (pc_of_stage q)) n (λ e. i.distinct b c (sym e))
          (omega (arith, s, t, i.count, b, c)) (omega (arith, s, t, i.count, b, c))

  pub elsewhere :
      (p q : Stage Double) (w : World P)
      → Inv P.sync (shared_of P feed w) (pc_of_stage p) (pc_of_stage q)
      → busy (pc_of_stage p) ≡ 1
      → Elsewhere feed (number (pc_of_stage p)) (lagging q)
  elsewhere p (passing m d) w i b = near p (passing m d) w i b refl
  elsewhere p (copying m d) w i b = near p (copying m d) w i b refl
  elsewhere p q w i b = tt

  last_place_inserted :
      (n s k : ℕ)
      → s ≡ earlier feed (feed n).instrument n % specific_history_size
      → n < k
      → k ≤ n + 2
      → last_place feed (feed n).instrument k ≡ s
  last_place_inserted n s k e a c = elim (ℕ_discrete k (suc n)) [
    | yes q ↦ rw q (last_place-own feed n s e)
    | no ne ↦
        let next : k ≡ suc (suc n) = omega (arith, ne, a, c) in
        rw next (
          last_place-other feed (feed n).instrument (suc n) (alternates n)
          ∙ last_place-own feed n s e)
  ]

  -- What a worker knows that is about to change a history, or to read it, while `k` updates are pending of the
  -- other worker, and the histories lag behind by `l`.
  abbrev pub Ready : Stage Double → World P → ℕ → Option ℕ → Type 0
  Ready (updating n d) w k l =
      IsNumbered P feed n d × (n ≡ w.inserted) × (k ≡ 0) × Elsewhere feed n l
  Ready (copying n d) w k l =
      IsNumbered P feed n d
      × (last_place feed (feed n).instrument (w.inserted + k) ≡ d.specific_index)
      × Elsewhere feed n l
  Ready (reading n d) w k l =
      IsNumbered P feed n d
      × (last_place feed (feed n).instrument (w.inserted + k) ≡ d.specific_index)
      × Elsewhere feed n l
      × (n < w.inserted + k)
      × (w.inserted + k ≤ n + 2)
  Ready _ w k l = Unit

  -- A pending update is the next one.
  pending_turn :
      (q : Stage Double) (w : World P)
      → w.inserted ≤ w.taken
      → Local P.sync (shared_of P feed w) (pc_of_stage q)
      → w.inserted + pending q ≤ w.taken
  pending_turn (passing m d) w le h = omega (arith, h)
  pending_turn q w le h = omega (arith, le)

  none_pending :
      (q : Stage Double) (w : World P)
      → Local P.sync (shared_of P feed w) (pc_of_stage q)
      → (busy (pc_of_stage q) ≡ 1 → w.inserted ≢ number (pc_of_stage q))
      → pending q ≡ 0
  none_pending (passing m d) w h ne = absurd (ne refl h.0)
  none_pending q w h ne = refl

  -- The histories of an update's instrument are those of the update until its sum is stored.
  still_last :
      (n s : ℕ) (q : Stage Double) (w : World P)
      → s ≡ earlier feed (feed n).instrument n % specific_history_size
      → n < w.inserted
      → w.summed ≤ n
      → w.inserted ≤ w.taken
      → w.taken ≡ w.summed + 1 + busy (pc_of_stage q)
      → Local P.sync (shared_of P feed w) (pc_of_stage q)
      → last_place feed (feed n).instrument (w.inserted + pending q) ≡ s
  still_last n s q w e a b le count h =
      last_place_inserted n s (w.inserted + pending q) e (omega (arith, a))
        (omega (arith, pending_turn q w le h, count, b, busy-le P.sync (pc_of_stage q)))

  pub stage-Ready :
      (p q : Stage Double) (w : World P)
      → Inv P.sync (shared_of P feed w) (pc_of_stage p) (pc_of_stage q)
      → HasUpdate P feed p
      → Ready p w (pending q) (lagging q)
  stage-Ready (updating n d) q w i h =
      let next = i.first.0 in
      (
        h,
        sym next,
        none_pending q w i.second (λ b e. i.distinct refl b (sym next ∙ e)),
        elsewhere (updating n d) q w i refl,
      )
  stage-Ready (copying n d) q w i h = (
    h,
    still_last n d.specific_index q w h.2 i.first.0 i.first.1 i.ordered.1 i.count i.second,
    elsewhere (copying n d) q w i refl,
  )
  stage-Ready (reading n d) q w i h = (
    h,
    still_last n d.specific_index q w h.2 i.first.0 i.first.1 i.ordered.1 i.count i.second,
    elsewhere (reading n d) q w i refl,
    omega (arith, i.first.0),
    omega (
      arith,
      pending_turn q w i.ordered.1 i.second,
      i.count,
      i.first.1,
      busy-le P.sync (pc_of_stage q),
    ),
  )
  stage-Ready p q w i h = tt
