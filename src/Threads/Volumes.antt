-- ===== src/Threads/Volumes.antt =====
-- The volumes in the histories stay within their bounds, in every interleaving.
use rsj.Prelude.{ℕ, ◌≡◌, refl, sym, subst, inl, inr, Bool-cases, write_all, arith}
use rsj.Prelude.Int.{eqb_ℤ}
use rsj.Structures.{RsjDataIn, LookupBid, LookupAsk}
use rsj.OrderBook.Best.{IsVolume}
use rsj.Table.Volumes.{BidVolumes, AskVolumes, bids_update-BidVolumes, asks_update-AskVolumes}
use rsj.Platform.{Platform}
use rsj.Context.{Context}
use rsj.Worker.{side_buying, copy_ask, copy_bid}
use rsj.Init.{initialize_c_style}
use rsj.Producer.{Update, placed}
use rsj.Market.{Market}
use rsj.Refinement.{IsUpdate}
use rsj.Turns.Defs.{place}
use rsj.Threads.Defs.{
  Stage, updating, passing, copying, reading, World, Threads, produces, stops, left_moves,
  right_moves, Reach, here, later, advance, update_level, copy_other, destructor_c_style,
}
use rsj.Threads.Links.{Ensures, Ensures-map, HasUpdate}
use rsj.Threads.Frame.{Keeps, KeepsBooks, advance-Keeps, produce-Keeps}
use rsj.Threads.Runs.{Reach-Projected, Ensures-done}
use rsj.Threads.Books.{HoldsBooks, on-Ensures}
use rsj.Threads.Safety.{books_in_order}

module _ (P : Platform) where
  open P.doubles use {Double}

  -- Every entry of every history is a volume within the bounds.
  pub record HasVolumes (c : Context P) : Type 0 where
    pub bids : (i : ℕ) → BidVolumes P.rb (c.bids i)
    pub asks : (i : ℕ) → AskVolumes P.rb (c.asks i)

  same-HasVolumes :
      {c c' : Context P} → HasVolumes c → c'.bids ≡ c.bids → c'.asks ≡ c.asks → HasVolumes c'
  same-HasVolumes h b a = record { bids = λ i. rw b (h.bids i); asks = λ i. rw a (h.asks i) }

  initialize-HasVolumes : HasVolumes (initialize_c_style P)
  unfolding initialize_c_style
  initialize-HasVolumes = record { bids = λ i j. omega arith; asks = λ i j. omega arith }

  update_level-HasVolumes :
      (u : Update) (oi s : ℕ) (m : Market P) (c : Context P)
      → IsUpdate u
      → HoldsBooks P m c
      → HasVolumes c
      → Ensures (update_level P (placed u oi s) c) (λ _ c'. HasVolumes c')
  unfolding update_level
  update_level-HasVolumes u oi s m c v b h = elim (Bool-cases (eqb_ℤ u.side side_buying)) [
    | inl buy ↦
        rw (buy, Ensures)
          (record {
            bids =
                write_all (λ j x. BidVolumes P.rb x) c.bids u.instrument _
                  (bids_update-BidVolumes P.rb _ _ s u.volume u.price (v.bid buy)
                    (b.bids u.instrument) (h.bids u.instrument))
                  h.bids;
            asks = h.asks;
          })
    | inr sell ↦
        rw (sell, Ensures)
          (record {
            bids = h.bids;
            asks =
                write_all (λ j x. AskVolumes P.rb x) c.asks u.instrument _
                  (asks_update-AskVolumes P.rb _ _ s u.volume u.price (v.ask sell)
                    (b.asks u.instrument) (h.asks u.instrument))
                  h.asks;
          })
  ]

  copy_ask-AskVolumes :
      (a : LookupAsk P.rb.Table) (s : ℕ) → AskVolumes P.rb a → AskVolumes P.rb (copy_ask P a s)
  unfolding copy_ask
  copy_ask-AskVolumes a s h = write_all (λ j x. IsVolume x) a.history s _ (h _) h

  copy_bid-BidVolumes :
      (b : LookupBid P.rb.Table) (s : ℕ) → BidVolumes P.rb b → BidVolumes P.rb (copy_bid P b s)
  unfolding copy_bid
  copy_bid-BidVolumes b s h = write_all (λ j x. IsVolume x.vol_bid) b.history s _ (h _) h

  copy_other-HasVolumes :
      (d : RsjDataIn) (c : Context P)
      → HasVolumes c
      → Ensures (copy_other P d c) (λ _ c'. HasVolumes c')
  unfolding copy_other
  copy_other-HasVolumes d c h = elim (Bool-cases (eqb_ℤ d.side side_buying)) [
    | inl buy ↦
        rw (buy, Ensures)
          (record {
            bids = h.bids;
            asks =
                write_all (λ j x. AskVolumes P.rb x) c.asks d.instrument _
                  (copy_ask-AskVolumes _ d.specific_index (h.asks d.instrument)) h.asks;
          })
    | inr sell ↦
        rw (sell, Ensures)
          (record {
            bids =
                write_all (λ j x. BidVolumes P.rb x) c.bids d.instrument _
                  (copy_bid-BidVolumes _ d.specific_index (h.bids d.instrument)) h.bids;
            asks = h.asks;
          })
  ]

  module _ (feed : ℕ → Update) (v : (n : ℕ) → IsUpdate (feed n)) where
    kept-HasVolumes :
        (p : Stage Double) (w : World P)
        → KeepsBooks p
        → HasVolumes w.context
        → Ensures (advance P p w) (λ _ w'. HasVolumes w'.context)
    kept-HasVolumes p w keeps h =
        Ensures-map (advance P p w) (λ p' w' e. same-HasVolumes h e.0 e.1)
          (advance-Keeps P p w keeps)

    advance-HasVolumes :
        (p : Stage Double) (w : World P) (m : Market P)
        → HasUpdate P feed p
        → HoldsBooks P m w.context
        → HasVolumes w.context
        → Ensures (advance P p w) (λ _ w'. HasVolumes w'.context)
    unfolding advance
    advance-HasVolumes (updating n d) w m (numbered, _, _) b h =
        on-Ensures P (update_level P d) (passing n d) w (λ _ w'. HasVolumes w'.context)
          (subst (λ e. Ensures (update_level P e w.context) (λ _ c. HasVolumes c)) (sym numbered)
            (update_level-HasVolumes (feed n) (place n) d.specific_index m w.context (v n) b h))
    advance-HasVolumes (copying n d) w m u b h =
        on-Ensures P (copy_other P d) (reading n d) w (λ _ w'. HasVolumes w'.context)
          (copy_other-HasVolumes d w.context h)
    advance-HasVolumes p w m u b h = kept-HasVolumes p w tt h

    -- In every reachable state the histories hold volumes within the bounds.
    pub Reach-HasVolumes : (t : Threads P feed) → Reach P feed t → HasVolumes t.world.context
    unfolding destructor_c_style
    Reach-HasVolumes t here = initialize-HasVolumes
    Reach-HasVolumes t (later {t = s} r (produces e)) =
        let kept =
          Ensures-done (λ _ w. Keeps P s.world s.left s.left w) e
            (produce-Keeps P feed s.world s.left) in
        same-HasVolumes (Reach-HasVolumes s r) kept.0 kept.1
    Reach-HasVolumes t (later {t = s} r (stops e)) =
        Ensures-done (λ _ c. HasVolumes c) e (same-HasVolumes (Reach-HasVolumes s r) refl refl)
    Reach-HasVolumes t (later {t = s} r (left_moves e)) =
        Ensures-done (λ _ w. HasVolumes w.context) e
          (advance-HasVolumes s.left s.world _ (Reach-Projected P feed s r).left_update
            (books_in_order P feed s v r) (Reach-HasVolumes s r))
    Reach-HasVolumes t (later {t = s} r (right_moves e)) =
        Ensures-done (λ _ w. HasVolumes w.context) e
          (advance-HasVolumes s.right s.world _ (Reach-Projected P feed s r).right_update
            (books_in_order P feed s v r) (Reach-HasVolumes s r))
