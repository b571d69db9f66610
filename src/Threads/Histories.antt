-- ===== src/Threads/Histories.antt =====
-- The histories of the two sides (table.h, worker.cc) against the best levels of a market, each at a
-- place of its own: a side lags behind while its history is not yet copied.
use rsj.Prelude.{ℕ, ◌≡◌, ◌≢◌, ◌∙◌, true, false, write_self, write_ne, inl, inr, Bool-cases}
use native.Mathlib.Decide.{ℕ_discrete}
use rsj.Prelude.Int.{eqb_ℤ}
use rsj.Helpers.{prev_index_spec}
use rsj.OrderBook.{best_bid, best_ask}
use rsj.Table.Bids.{bids_update-TracksBids}
use rsj.Table.Asks.{asks_update-TracksAsks}
use rsj.Platform.{Platform}
use rsj.Context.{Context}
use rsj.Worker.{side_buying, copy_ask, copy_bid}
use rsj.Producer.{Update, placed}
use rsj.Market.{Market, set_books}
use rsj.Refinement.{IsUpdate}
use rsj.Threads.Defs.{update_level, copy_other}
use rsj.Threads.Links.{Ensures}
use rsj.Threads.Books.{HoldsBooks}

-- The place of instrument `i` moves on to `s`, the others stay.
pub record MovesOn (old new : ℕ → ℕ) (i s : ℕ) : Type 0 where
  pub from : old i ≡ prev_index_spec s
  pub to : new i ≡ s
  pub others : (j : ℕ) → j ≢ i → new j ≡ old j

module _ (P : Platform) where
  -- The history of each side of each instrument holds the best level of the market at its place.
  pub record Current (m : Market P) (bid_at ask_at : ℕ → ℕ) (c : Context P) : Type 0 where
    pub bids : (i : ℕ) → (c.bids i).history (bid_at i) ≡ best_bid (m.bids i)
    pub asks : (i : ℕ) → (c.asks i).history (ask_at i) ≡ (best_ask (m.asks i)).vol_bid

  pub same-Current :
      {m : Market P} {b a b' a' : ℕ → ℕ} {c c' : Context P}
      → Current m b a c
      → ((i : ℕ) → b' i ≡ b i)
      → ((i : ℕ) → a' i ≡ a i)
      → c'.bids ≡ c.bids
      → c'.asks ≡ c.asks
      → Current m b' a' c'
  same-Current h eb ea sb sa = record {
    bids = λ i. rw (sb, eb i) (h.bids i);
    asks = λ i. rw (sa, ea i) (h.asks i);
  }

  module _ (u : Update) (oi s : ℕ) (m : Market P) (c : Context P) (b a b' a' : ℕ → ℕ) where
    -- An insertion moves the place of its own side on.
    pub update_level-Current :
        IsUpdate u
        → HoldsBooks P m c
        → Current m b a c
        → (eqb_ℤ u.side side_buying ≡ true → MovesOn b b' u.instrument s × ((j : ℕ) → a' j ≡ a j))
        → (eqb_ℤ u.side side_buying ≡ false → MovesOn a a' u.instrument s × ((j : ℕ) → b' j ≡ b j))
        → Ensures (update_level P (placed u oi s) c) (λ _ c'. Current (set_books P u m) b' a' c')
    unfolding update_level set_books
    update_level-Current v held h buying selling = elim (Bool-cases (eqb_ℤ u.side side_buying)) [
      | inl buy ↦
          let (on, same) = buying buy in
          let k = held.bids u.instrument in
          let t =
            bids_update-TracksBids P.rb (m.bids u.instrument) (c.bids u.instrument) s u.volume
              u.price (v.bid buy)
              (record {
                agrees = k.agrees;
                valid = k.valid;
                cached = k.cached;
                current = rw (on.from) at (h.bids u.instrument);
              }) in
          rw (buy, Ensures)
            (record {
              bids = λ j. elim (ℕ_discrete j u.instrument) [
                | yes e ↦
                    rw
                      (e, on.to, write_self c.bids u.instrument _, write_self m.bids u.instrument _)
                      t.current
                | no ne ↦
                    rw
                      (
                        on.others j ne,
                        write_ne c.bids u.instrument j _ ne,
                        write_ne m.bids u.instrument j _ ne,
                      )
                      (h.bids j)
              ];
              asks = λ j. rw (same j) (h.asks j);
            })
      | inr sell ↦
          let (on, same) = selling sell in
          let k = held.asks u.instrument in
          let t =
            asks_update-TracksAsks P.rb (m.asks u.instrument) (c.asks u.instrument) s u.volume
              u.price (v.ask sell)
              (record {
                agrees = k.agrees;
                valid = k.valid;
                cached = k.cached;
                current = rw (on.from) at (h.asks u.instrument);
              }) in
          rw (sell, Ensures)
            (record {
              bids = λ j. rw (same j) (h.bids j);
              asks = λ j. elim (ℕ_discrete j u.instrument) [
                | yes e ↦
                    rw
                      (e, on.to, write_self c.asks u.instrument _, write_self m.asks u.instrument _)
                      t.current
                | no ne ↦
                    rw
                      (
                        on.others j ne,
                        write_ne c.asks u.instrument j _ ne,
                        write_ne m.asks u.instrument j _ ne,
                      )
                      (h.asks j)
              ];
            })
    ]

    -- A copy moves the place of the other side on.
    pub copy_other-Current :
        Current m b a c
        → (eqb_ℤ u.side side_buying ≡ true → MovesOn a a' u.instrument s × ((j : ℕ) → b' j ≡ b j))
        → (eqb_ℤ u.side side_buying ≡ false → MovesOn b b' u.instrument s × ((j : ℕ) → a' j ≡ a j))
        → Ensures (copy_other P (placed u oi s) c) (λ _ c'. Current m b' a' c')
    unfolding copy_other copy_ask copy_bid
    copy_other-Current h buying selling = elim (Bool-cases (eqb_ℤ u.side side_buying)) [
      | inl buy ↦
          let (on, same) = buying buy in
          rw (buy, Ensures)
            (record {
              bids = λ j. rw (same j) (h.bids j);
              asks = λ j. elim (ℕ_discrete j u.instrument) [
                | yes e ↦
                    rw (e, on.to, write_self c.asks u.instrument _)
                      (write_self (c.asks u.instrument).history s _
                        ∙ (rw (on.from) at (h.asks u.instrument)))
                | no ne ↦ rw (on.others j ne, write_ne c.asks u.instrument j _ ne) (h.asks j)
              ];
            })
      | inr sell ↦
          let (on, same) = selling sell in
          rw (sell, Ensures)
            (record {
              bids = λ j. elim (ℕ_discrete j u.instrument) [
                | yes e ↦
                    rw (e, on.to, write_self c.bids u.instrument _)
                      (write_self (c.bids u.instrument).history s _
                        ∙ (rw (on.from) at (h.bids u.instrument)))
                | no ne ↦ rw (on.others j ne, write_ne c.bids u.instrument j _ ne) (h.bids j)
              ];
              asks = λ j. rw (same j) (h.asks j);
            })
    ]
