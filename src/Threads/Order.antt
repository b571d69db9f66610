-- ===== src/Threads/Order.antt =====
-- The insertions of the two workers, in every interleaving, against the books of the market.
use rsj.Prelude.{ℕ, zero, suc, ◌+◌, ◌≡◌, sym, subst, arith}
use rsj.Structures.{RsjDataIn}
use rsj.Platform.{Platform}
use rsj.Context.{Context}
use rsj.Producer.{Update}
use rsj.Market.{Market, opening, set_books}
use rsj.Refinement.{IsUpdate}
use rsj.Threads.Defs.{
  Stage, updating, passing, copying, reading, World, update_level, copy_other, advance,
}
use rsj.Turns.Defs.{place}
use rsj.Threads.Frame.{pending, KeepsBooks, advance-Keeps}
use rsj.Threads.Links.{Ensures-map, Ensures, IsNumbered}
use rsj.Threads.Books.{
  HoldsBooks, update_level-HoldsBooks, copy_other-HoldsBooks, same-HoldsBooks, on-Ensures,
}

module _ (P : Platform) (feed : ℕ → Update) where
  open P.doubles use {Double}

  -- The books after the first updates, in the order in which the producer sent them.
  unfoldable pub books_after : ℕ → Market P
  books_after zero = opening P
  books_after (suc n) = set_books P (feed n) (books_after n)

  -- A worker that is about to change the books has the next update, and the other worker has nothing
  -- pending.
  abbrev pub HasTurn : Stage Double → World P → ℕ → Type 0
  HasTurn (updating n d) w k = IsNumbered P feed n d × (n ≡ w.inserted) × (k ≡ 0)
  HasTurn _ w k = Unit

  -- The books that the state holds, when `k` updates of the other worker are pending.
  abbrev pub Booked : ℕ → Stage Double → World P → Type 0
  Booked k p w = HoldsBooks P (books_after (w.inserted + pending p + k)) w.context

  next_books :
      ((n : ℕ) → IsUpdate (feed n))
      → (n : ℕ) (d : RsjDataIn) (c : Context P) → IsNumbered P feed n d
      → HoldsBooks P (books_after n) c
      → Ensures (update_level P d c) (λ _ c'. HoldsBooks P (books_after (suc n)) c')
  unfolding books_after
  next_books v n d c numbered h =
      subst
        (λ e.
          Ensures (update_level P e c)
            (λ _ c'. HoldsBooks P (set_books P (feed n) (books_after n)) c'))
        (sym numbered.0)
        (update_level-HoldsBooks P (feed n) (place n) d.specific_index (books_after n) c (v n) h)

  -- A step that keeps the books.
  kept-Booked :
      (p : Stage Double) (w : World P) (k : ℕ)
      → KeepsBooks p
      → Booked k p w
      → Ensures (advance P p w) (Booked k)
  kept-Booked p w k keeps h =
      Ensures-map (advance P p w)
        (λ p' w' e.
          subst (λ j. HoldsBooks P (books_after (j + k)) w'.context) e.2
            (same-HoldsBooks P h e.0 e.1))
        (advance-Keeps P p w keeps)

  pub advance-Booked :
      ((n : ℕ) → IsUpdate (feed n))
      → (p : Stage Double) (w : World P) (k : ℕ) → HasTurn p w k
      → Booked k p w
      → Ensures (advance P p w) (Booked k)
  unfolding advance
  advance-Booked v (updating n d) w k (numbered, next, alone) h =
      on-Ensures P (update_level P d) (passing n d) w (Booked k) (
        subst (λ j. Ensures (update_level P d w.context) (λ _ c. HoldsBooks P (books_after j) c))
          (omega (arith, next, alone))
          (next_books v n d w.context numbered
            (subst (λ j. HoldsBooks P (books_after j) w.context) (omega (arith, next, alone)) h)))
  advance-Booked v (copying n d) w k turn h =
      on-Ensures P (copy_other P d) (reading n d) w (Booked k)
        (copy_other-HoldsBooks P d _ w.context h)
  advance-Booked v p w k turn h = kept-Booked p w k tt h
