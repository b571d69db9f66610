-- ===== src/Threads/Books.antt =====
-- The books of every instrument, in every interleaving: the trees and the cached best levels are those
-- of the market after the updates that have been inserted.
use rsj.Prelude.{ℕ, ◌≡◌, refl, inl, inr, Bool-cases, ◌==◌, write_all}
use rsj.Prelude.Int.{eqb_ℤ}
use rsj.Structures.{RsjDataIn, LookupBid, LookupAsk}
use rsj.RbTable.Agree.{create-Agrees}
use rsj.OrderBook.{Book, level, best_bid, best_ask, highest, lowest}
use rsj.Table.Holds.{HoldsBids, HoldsAsks, bids_update-HoldsBids, asks_update-HoldsAsks}
use rsj.Platform.{Platform}
use rsj.Context.{Context, Outcome, done, spins, fault}
use rsj.Worker.{M, side_buying, copy_ask, copy_bid}
use rsj.Init.{initialize_c_style}
use rsj.Producer.{Update, placed}
use rsj.Market.{Market, opening, set_books}
use rsj.Refinement.{IsUpdate}
use rsj.Threads.Defs.{Stage, World, update_level, copy_other, on}
use rsj.Threads.Links.{Ensures}

module _ (P : Platform) where
  -- The trees and the cached best levels are those of the market's books.
  pub record HoldsBooks (m : Market P) (c : Context P) : Type 0 where
    pub bids : (i : ℕ) → HoldsBids P.rb (m.bids i) (c.bids i)
    pub asks : (i : ℕ) → HoldsAsks P.rb (m.asks i) (c.asks i)

  pub update_level-HoldsBooks :
      (u : Update) (oi s : ℕ) (m : Market P) (c : Context P)
      → IsUpdate u
      → HoldsBooks m c
      → Ensures (update_level P (placed u oi s) c) (λ _ c'. HoldsBooks (set_books P u m) c')
  unfolding update_level set_books
  update_level-HoldsBooks u oi s m c v h = elim (Bool-cases (eqb_ℤ u.side side_buying)) [
    | inl buy ↦
        rw (buy, Ensures)
          (record {
            bids = λ j. elim (Bool-cases (j == u.instrument)) [
              | inl e ↦ rw e (
                  bids_update-HoldsBids P.rb _ _ s u.volume u.price (v.bid buy)
                    (h.bids u.instrument))
              | inr e ↦ rw e (h.bids j)
            ];
            asks = h.asks;
          })
    | inr sell ↦
        rw (sell, Ensures)
          (record {
            bids = h.bids;
            asks = λ j. elim (Bool-cases (j == u.instrument)) [
              | inl e ↦ rw e (
                  asks_update-HoldsAsks P.rb _ _ s u.volume u.price (v.ask sell)
                    (h.asks u.instrument))
              | inr e ↦ rw e (h.asks j)
            ];
          })
  ]

  copied_ask :
      {book : Book} {a : LookupAsk P.rb.Table} (s : ℕ)
      → HoldsAsks P.rb book a
      → HoldsAsks P.rb book (copy_ask P a s)
  unfolding copy_ask
  copied_ask s h = record { agrees = h.agrees; valid = h.valid; cached = h.cached }

  copied_bid :
      {book : Book} {b : LookupBid P.rb.Table} (s : ℕ)
      → HoldsBids P.rb book b
      → HoldsBids P.rb book (copy_bid P b s)
  unfolding copy_bid
  copied_bid s h = record { agrees = h.agrees; valid = h.valid; cached = h.cached }

  pub copy_other-HoldsBooks :
      (d : RsjDataIn) (m : Market P) (c : Context P)
      → HoldsBooks m c
      → Ensures (copy_other P d c) (λ _ c'. HoldsBooks m c')
  unfolding copy_other
  copy_other-HoldsBooks d m c h = elim (Bool-cases (eqb_ℤ d.side side_buying)) [
    | inl buy ↦
        rw (buy, Ensures)
          (record {
            bids = h.bids;
            asks =
                write_all (λ j a. HoldsAsks P.rb (m.asks j) a) c.asks d.instrument _
                  (copied_ask d.specific_index (h.asks d.instrument)) h.asks;
          })
    | inr sell ↦
        rw (sell, Ensures)
          (record {
            bids =
                write_all (λ j b. HoldsBids P.rb (m.bids j) b) c.bids d.instrument _
                  (copied_bid d.specific_index (h.bids d.instrument)) h.bids;
            asks = h.asks;
          })
  ]

  -- The histories, the flags, the sums and the ring do not matter.
  pub same-HoldsBooks :
      {m : Market P} {c c' : Context P}
      → HoldsBooks m c
      → c'.bids ≡ c.bids
      → c'.asks ≡ c.asks
      → HoldsBooks m c'
  same-HoldsBooks h b a = record { bids = λ i. rw b (h.bids i); asks = λ i. rw a (h.asks i) }

  -- The state before the first update.
  pub initialize-HoldsBooks : HoldsBooks (opening P) (initialize_c_style P)
  unfolding initialize_c_style opening level best_bid best_ask highest lowest
  initialize-HoldsBooks = record {
    bids = λ i. record { agrees = create-Agrees P.rb; valid = λ y z q. absurd (cc); cached = refl };
    asks = λ i. record { agrees = create-Agrees P.rb; valid = λ y z q. absurd (cc); cached = refl };
  }

  pub on-Ensures :
      (m : M P (Unit {0})) (p : Stage P.doubles.Double) (w : World P)
      (Q : Stage P.doubles.Double → World P → Type 0)
      → Ensures (m w.context) (λ _ c. Q p (record w { context = c }))
      → Ensures (on P m p w) Q
  on-Ensures m p w Q h = go (m w.context) h
    where
      go :
          (o : Outcome (Context P) (Unit {0}))
          → Ensures o (λ _ c. Q p (record w { context = c }))
          → Ensures
              (elim o [
                | done _ c ↦ done p (record w { context = c })
                | spins ↦ spins
                | fault ↦ fault
              ])
              Q
      go (done x c) h = h
      go spins h = tt
      go fault h = tt
