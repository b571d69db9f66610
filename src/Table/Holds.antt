-- ===== src/Table/Holds.antt =====
-- The trees and the cached best levels, whatever the histories hold.
use rsj.Prelude.{ℕ, ◌≡◌, refl, subst, inl, inr, Bool-cases, Option-cases}
use rsj.Prelude.Int.{ℤ, pos, eqb_ℤ, ltb_ℤ}
use rsj.Structures.{RsjPair, LookupBid, LookupAsk}
use rsj.Comparison.{int_comparison}
use rsj.RbTable.{RbTable}
use rsj.RbTable.Agree.{Agrees}
use rsj.OrderBook.{Book, set_level, best_bid, best_ask}
use rsj.OrderBook.Best.{IsBid, IsAsk, IsBidBook, IsAskBook}
use rsj.Table.{
  pair_of, bids_update, asks_update, new_best_bid, same_best_bid, new_best_ask, same_best_ask,
}
use rsj.Table.Bids.{bids_update-TracksBids}
use rsj.Table.Asks.{asks_update-TracksAsks}

module _ (T : RbTable int_comparison) where
  open T use {Table, rb_replace, rb_delete, rb_t_first, rb_t_last}

  -- `bids` holds `book`, and its best level is cached.
  pub record HoldsBids (book : Book) (bids : LookupBid Table) : Type 0 where
    pub agrees : Agrees T bids.tree book
    pub valid : IsBidBook book
    pub cached : pair_of bids.vol_bid bids.price_bid ≡ best_bid book

  -- What bids_insert does to the tree and the cached best level does not depend on the history, nor on
  -- the place in it.
  bids_update-any_history :
      (bids : LookupBid Table) (h : ℕ → RsjPair) (s k : ℕ) (vol price : ℤ)
      → record (bids_update T (record bids { history = h }) s vol price) { history = h }
        ≡ record (bids_update T bids k vol price) { history = h }
  unfolding bids_update new_best_bid same_best_bid
  bids_update-any_history bids h s k vol price =
      let tree = (rb_delete (rb_replace bids.tree (pair_of vol price)).0 (pair_of vol price)).0 in
      elim (Bool-cases (eqb_ℤ vol (pos 0))) [
        | inl gone ↦ elim (Bool-cases (eqb_ℤ price bids.price_bid)) [
          | inl best ↦ elim (Option-cases (rb_t_last tree)) [
            | inl e ↦ rw (gone, best) (rw (e, new_best_bid) refl)
            | inr (m, e) ↦ rw (gone, best) (rw (e, new_best_bid) refl)
          ]
          | inr other ↦ rw (gone, other) refl
        ]
        | inr set ↦ elim (Bool-cases (ltb_ℤ price bids.price_bid)) [
          | inl worse ↦ rw (set, worse) refl
          | inr better ↦ rw (set, better) refl
        ]
      ]

  pub bids_update-HoldsBids :
      (book : Book) (bids : LookupBid Table) (s : ℕ) (vol price : ℤ)
      → IsBid (pair_of vol price)
      → HoldsBids book bids
      → HoldsBids (set_level book (pair_of vol price)) (bids_update T bids s vol price)
  bids_update-HoldsBids book bids s vol price v h =
      let best = λ (j : ℕ). pair_of bids.vol_bid bids.price_bid in
      let t =
        bids_update-TracksBids T book (record bids { history = best }) 0 vol price v
          (record { agrees = h.agrees; valid = h.valid; cached = h.cached; current = h.cached }) in
      let holds : HoldsBids (set_level book (pair_of vol price))
          (record (bids_update T (record bids { history = best }) 0 vol price) { history = best }) =
        record { agrees = t.agrees; valid = t.valid; cached = t.cached } in
      let r =
        subst (HoldsBids (set_level book (pair_of vol price)))
          (bids_update-any_history bids best 0 s vol price) holds in
      record { agrees = r.agrees; valid = r.valid; cached = r.cached }

  -- The same for the asks.
  pub record HoldsAsks (book : Book) (asks : LookupAsk Table) : Type 0 where
    pub agrees : Agrees T asks.tree book
    pub valid : IsAskBook book
    pub cached : pair_of asks.vol_ask asks.price_ask ≡ best_ask book

  asks_update-any_history :
      (asks : LookupAsk Table) (h : ℕ → ℤ) (s k : ℕ) (vol price : ℤ)
      → record (asks_update T (record asks { history = h }) s vol price) { history = h }
        ≡ record (asks_update T asks k vol price) { history = h }
  unfolding asks_update new_best_ask same_best_ask
  asks_update-any_history asks h s k vol price =
      let tree = (rb_delete (rb_replace asks.tree (pair_of vol price)).0 (pair_of vol price)).0 in
      elim (Bool-cases (eqb_ℤ vol (pos 0))) [
        | inl gone ↦ elim (Bool-cases (eqb_ℤ price asks.price_ask)) [
          | inl best ↦ elim (Option-cases (rb_t_first tree)) [
            | inl e ↦ rw (gone, best) (rw (e, new_best_ask) refl)
            | inr (m, e) ↦ rw (gone, best) (rw (e, new_best_ask) refl)
          ]
          | inr other ↦ rw (gone, other) refl
        ]
        | inr set ↦ elim (Bool-cases (ltb_ℤ asks.price_ask price)) [
          | inl worse ↦ rw (set, worse) refl
          | inr better ↦ rw (set, better) refl
        ]
      ]

  pub asks_update-HoldsAsks :
      (book : Book) (asks : LookupAsk Table) (s : ℕ) (vol price : ℤ)
      → IsAsk (pair_of vol price)
      → HoldsAsks book asks
      → HoldsAsks (set_level book (pair_of vol price)) (asks_update T asks s vol price)
  asks_update-HoldsAsks book asks s vol price v h =
      let best = λ (j : ℕ). (best_ask book).vol_bid in
      let t =
        asks_update-TracksAsks T book (record asks { history = best }) 0 vol price v
          (record { agrees = h.agrees; valid = h.valid; cached = h.cached; current = refl }) in
      let holds : HoldsAsks (set_level book (pair_of vol price))
          (record (asks_update T (record asks { history = best }) 0 vol price) { history = best }) =
        record { agrees = t.agrees; valid = t.valid; cached = t.cached } in
      let r =
        subst (HoldsAsks (set_level book (pair_of vol price)))
          (asks_update-any_history asks best 0 s vol price) holds in
      record { agrees = r.agrees; valid = r.valid; cached = r.cached }
