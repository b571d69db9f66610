-- ===== src/Threads/Readings.antt =====
-- The histories in every interleaving (table.h, worker.cc), for updates of which no two neighbours are
-- of the same instrument.
use rsj.Prelude.{ℕ, suc, ◌+◌, ◌≡◌, refl, sym, subst, Option, none, some, arith}
use rsj.Structures.{RsjDataIn}
use rsj.Platform.{Platform}
use rsj.Producer.{Update}
use rsj.Market.{set_books}
use rsj.Refinement.{IsUpdate}
use rsj.Turns.Defs.{place}
use rsj.Threads.Defs.{
  Stage, updating, passing, copying, reading, World, update_level, copy_other, advance,
}
use rsj.Threads.Links.{Ensures, Ensures-map, IsNumbered}
use rsj.Threads.Books.{HoldsBooks, on-Ensures}
use rsj.Threads.Frame.{pending, lagging, KeepsBooks, advance-Keeps}
use rsj.Threads.Order.{books_after, Booked}
use rsj.Threads.Histories.{Current, same-Current, update_level-Current, copy_other-Current}
use rsj.Threads.Lags.{
  Alternates, Elsewhere, bid_place, ask_place, insertion_buys, insertion_sells, copy_buys,
  copy_sells,
}
use rsj.Threads.Neighbours.{Ready}

module _ (P : Platform) (feed : ℕ → Update) (alternates : Alternates feed) where
  open P.doubles use {Double}

  -- The histories show the books after `k` updates, but for those that are still to be copied.
  abbrev pub ShownAt : ℕ → Option ℕ → Option ℕ → World P → Type 0
  ShownAt k l m w =
      Current P (books_after P feed k) (bid_place feed k l m) (ask_place feed k l m) w.context

  -- The same, seen from one worker, when `k` updates of the other are pending and `m` is to be copied.
  abbrev pub Shown : ℕ → Option ℕ → Stage Double → World P → Type 0
  Shown k m p w = ShownAt (w.inserted + pending p + k) (lagging p) m w

  kept-Shown :
      (p : Stage Double) (w : World P) (k : ℕ) (m : Option ℕ)
      → KeepsBooks p
      → Shown k m p w
      → Ensures (advance P p w) (Shown k m)
  kept-Shown p w k m keeps h =
      Ensures-map (advance P p w)
        (λ p' w' e. rw (← e.2, ← e.3) (same-Current P h (λ i. refl) (λ i. refl) e.0 e.1))
        (advance-Keeps P p w keeps)

  module _ (v : (n : ℕ) → IsUpdate (feed n)) where
    inserted-Shown :
        (n : ℕ) (d : RsjDataIn) (w : World P) (m : Option ℕ)
        → IsNumbered P feed n d
        → Elsewhere feed n m
        → HoldsBooks P (books_after P feed n) w.context
        → ShownAt n none m w
        → Ensures (update_level P d w.context) (λ _ c.
          Current P
            (books_after P feed (suc n))
            (bid_place feed (suc n) (some n) m)
            (ask_place feed (suc n) (some n) m)
            c)
    unfolding books_after
    inserted-Shown n d w m (numbered, _, at) far held h =
        subst
          (λ e. Ensures (update_level P e w.context) (λ _ c.
            Current P (set_books P (feed n) (books_after P feed n))
              (bid_place feed (suc n) (some n) m) (ask_place feed (suc n) (some n) m) c))
          (sym numbered)
          (update_level-Current P (feed n) (place n) d.specific_index (books_after P feed n)
            w.context (bid_place feed n none m) (ask_place feed n none m)
            (bid_place feed (suc n) (some n) m) (ask_place feed (suc n) (some n) m) (v n) held h
            (insertion_buys feed n d.specific_index m at far)
            (insertion_sells feed n d.specific_index m at far))

    pub advance-Shown :
        (p : Stage Double) (w : World P) (k : ℕ) (m : Option ℕ)
        → Ready P feed alternates p w k m
        → Booked P feed k p w
        → Shown k m p w
        → Ensures (advance P p w) (Shown k m)
    unfolding advance
    advance-Shown (updating n d) w k m (numbered, next, alone, far) held h =
        let now : w.inserted + 0 + k ≡ n = omega (arith, next, alone) in
        let then : suc n ≡ w.inserted + 1 + k = omega (arith, next, alone) in
        on-Ensures P (update_level P d) (passing n d) w (Shown k m) (
          subst
            (λ j. Ensures (update_level P d w.context) (λ _ c.
              Current P (books_after P feed j) (bid_place feed j (some n) m)
                (ask_place feed j (some n) m) c))
            then
            (inserted-Shown n d w m numbered far
              (subst (λ j. HoldsBooks P (books_after P feed j) w.context) now held)
              (subst (λ j. ShownAt j none m w) now h)))
    advance-Shown (copying n d) w k m ((numbered, _, _), at, far) held h =
        let total : w.inserted + k ≡ w.inserted + 0 + k = omega arith in
        on-Ensures P (copy_other P d) (reading n d) w (Shown k m) (
          subst
            (λ e.
              Ensures (copy_other P e w.context)
                (λ _ c. Shown k m (reading n d) (record w { context = c })))
            (sym numbered)
            (copy_other-Current P (feed n) (place n) d.specific_index _ w.context
              (bid_place feed (w.inserted + 0 + k) (some n) m)
              (ask_place feed (w.inserted + 0 + k) (some n) m)
              (bid_place feed (w.inserted + 0 + k) none m)
              (ask_place feed (w.inserted + 0 + k) none m) h
              (copy_buys feed n d.specific_index (w.inserted + 0 + k) m (rw (← total) at) far)
              (copy_sells feed n d.specific_index (w.inserted + 0 + k) m (rw (← total) at) far)))
    advance-Shown p w k m ready held h = kept-Shown p w k m tt h
