-- ===== src/Threads/Verdicts.antt =====
-- What a worker makes of the histories (worker.cc): the value of fp that the market gives, or none.
use rsj.Prelude.{
  ℕ, suc, Bool, true, false, ◌+◌, ◌<◌, ◌≤◌, ◌≡◌, ◌≢◌, refl, subst, sym, ◌∙◌, ap, Option, none, some,
  write_ne, if◌then◌else◌, inl, inr, Bool-cases, arith,
}
use native.Mathlib.Decide.{ℕ_discrete}
use rsj.Prelude.Int.{ℤ, eqb_ℤ, ◌+ℤ◌}
use rsj.Structures.{RsjDataIn, RsjPair}
use rsj.OrderBook.{best_bid, best_ask}
use rsj.Platform.{Platform}
use rsj.Context.{Context}
use rsj.Worker.{
  side_buying, is_int, not_enough, compute_fp_i, sync_set_order, sync_unset_order,
  sync_set_order_sum, sync_unset_order_sum, result, last_fp, store_fp, store_sum,
}
use rsj.Producer.{Update}
use rsj.Market.{Market, set_books}
use rsj.Threads.Lags.{Alternates, copied_places}
use rsj.Threads.Order.{books_after}
use rsj.Threads.Neighbours.{Ready}
use rsj.Threads.Readings.{Shown}
use rsj.Threads.Cases.{Outcomes, advance-cases}
use rsj.Threads.Links.{Ensures}
use rsj.Threads.Defs.{
  Stage, testing, polling, updating, copying, reading, returning, awaiting_sum, clearing_own_sum,
  storing, World, store_result, choose, advance,
}

abbrev is_reading : {Double : Type 0} → Stage Double → Bool
is_reading (reading n d) = true
is_reading p = false

module _ (P : Platform) where
  open P.doubles use {Double, of_int, div}

  -- The value of fp for the best bid and the volume of the best ask, if there is enough data.
  unfoldable pub fp_of : RsjPair → ℤ → Option Double
  fp_of bid volask =
      if not_enough volask bid.vol_bid bid.price_bid
      then none
      else some
          (compute_fp_i P (div (of_int bid.vol_bid) (of_int (bid.vol_bid +ℤ volask))) bid.price_bid)

  module _ (feed : ℕ → Update) where
    -- The value for the books after update `n`.
    abbrev pub verdict : ℕ → Option Double
    verdict n =
        let m = books_after P feed (suc n) in
        let i = (feed n).instrument in fp_of (best_bid (m.bids i)) (best_ask (m.asks i)).vol_bid

    -- A worker that has read the histories has the market's value.
    abbrev pub Judged : Stage Double → Type 0
    Judged (returning n d) = verdict n ≡ none
    Judged (awaiting_sum n d fp) = verdict n ≡ fp
    Judged (clearing_own_sum n d fp) = verdict n ≡ fp
    Judged (storing n d fp) = verdict n ≡ fp
    Judged _ = Unit

    -- The histories, at the update's place, hold the best levels after the update.
    abbrev pub ReadsBest : ℕ → RsjDataIn → Context P → Type 0
    ReadsBest n d c =
        let m = books_after P feed (suc n) in
        let i = (feed n).instrument in
        ((c.bids d.instrument).history d.specific_index ≡ best_bid (m.bids i))
        × ((c.asks d.instrument).history d.specific_index ≡ (best_ask (m.asks i)).vol_bid)

    judges :
        (n : ℕ) (d : RsjDataIn) (w : World P)
        → ReadsBest n d w.context
        → Ensures (choose P n d w) (λ p' w'. Judged p')
    unfolding choose fp_of
    judges n d w (b, a) = elim (Bool-cases (not_enough volask bid.vol_bid bid.price_bid)) [
      | inl e ↦ rw (e, Ensures) (rw (← b, ← a, e) refl)
      | inr e ↦ elim (Bool-cases (is_int (bid.vol_bid +ℤ volask))) [
        | inl f ↦ rw (e, Ensures) (rw (f, Ensures) (rw (← b, ← a, e) refl))
        | inr f ↦ rw (e, Ensures) (rw (f, Ensures) tt)
      ]
    ]
      where
        bid : RsjPair
        bid = (w.context.bids d.instrument).history d.specific_index

        volask : ℤ
        volask = (w.context.asks d.instrument).history d.specific_index

    -- An update leaves the books of other instruments alone.
    set_books_other :
        (u : Update) (m : Market P) (i : ℕ)
        → i ≢ u.instrument
        → ((set_books P u m).bids i ≡ m.bids i) × ((set_books P u m).asks i ≡ m.asks i)
    unfolding set_books
    set_books_other u m i ne = elim (Bool-cases (eqb_ℤ u.side side_buying)) [
      | inl buy ↦ rw buy (write_ne m.bids u.instrument i _ ne, refl)
      | inr sell ↦ rw sell (refl, write_ne m.asks u.instrument i _ ne)
    ]

    abbrev SameBooks : ℕ → ℕ → ℕ → Type 0
    SameBooks i k n =
        ((books_after P feed k).bids i ≡ (books_after P feed n).bids i)
        × ((books_after P feed k).asks i ≡ (books_after P feed n).asks i)

    module _ (alternates : Alternates feed) where
      same_books : (n k : ℕ) → n < k → k ≤ n + 2 → SameBooks (feed n).instrument k (suc n)
      unfolding books_after
      same_books n k lt le = elim (ℕ_discrete k (suc n)) [
        | yes e ↦ rw e (refl, refl)
        | no ne ↦
            let next : k ≡ suc (suc n) = omega (arith, ne, lt, le) in
            subst (λ j. SameBooks (feed n).instrument j (suc n)) (sym next)
              (set_books_other (feed (suc n)) (books_after P feed (suc n)) (feed n).instrument
                (alternates n))
      ]

      pub reads_best :
          (n : ℕ) (d : RsjDataIn) (w : World P) (k : ℕ) (m : Option ℕ)
          → Ready P feed alternates (reading n d) w k m
          → Shown P feed alternates k m (reading n d) w
          → ReadsBest n d w.context
      reads_best n d w k m (numbered, at, far, lt, le) h =
          let total : w.inserted + k ≡ w.inserted + 0 + k = omega arith in
          let (b, a) =
            copied_places feed n d.specific_index (w.inserted + 0 + k) m (rw (← total) at) far in
          let (sb, sa) =
            same_books n (w.inserted + 0 + k) (omega (arith, lt)) (omega (arith, le)) in
          let i : d.instrument ≡ (feed n).instrument =
            ap (λ (e : RsjDataIn). e.instrument) numbered.0 in
          (
            rw i (
                ap (w.context.bids (feed n).instrument).history (sym b)
                ∙ h.bids (feed n).instrument
                ∙ ap best_bid sb),
            rw i (
                ap (w.context.asks (feed n).instrument).history (sym a)
                ∙ h.asks (feed n).instrument
                ∙ ap (λ x. (best_ask x).vol_bid) sa),
          )

      -- Every other step keeps what the worker has judged.
      verdict_each :
          (p : Stage Double) (w : World P)
          → is_reading p ≡ false
          → Judged p
          → Outcomes P p w (λ p' w'. Judged p')
      unfolding advance sync_set_order sync_unset_order sync_set_order_sum sync_unset_order_sum
          result store_result last_fp store_fp store_sum
      verdict_each testing w r h = (tt, tt)
      verdict_each polling w r h = λ d x. tt
      verdict_each (updating n d) w r h = (λ b. tt, λ a. tt)
      verdict_each (copying n d) w r h = (λ b. tt, λ a. tt)
      verdict_each (reading n d) w r h = absurd (cc)
      verdict_each (storing n d none) w r h = tt
      verdict_each (storing n d (some fp)) w r h = tt
      verdict_each p w r h = h

      pub advance-Judged :
          (p : Stage Double) (w : World P) (k : ℕ) (m : Option ℕ)
          → Ready P feed alternates p w k m
          → Shown P feed alternates k m p w
          → Judged p
          → Ensures (advance P p w) (λ p' w'. Judged p')
      unfolding advance
      advance-Judged (reading n d) w k m r s h = judges n d w (reads_best n d w k m r s)
      advance-Judged p w k m r s h =
          advance-cases P p w (λ p' w'. Judged p') (verdict_each p w refl h)
