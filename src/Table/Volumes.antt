-- ===== src/Table/Volumes.antt =====
-- What the histories hold: volumes within the bounds, whatever the order in which they are written.
use rsj.Prelude.{ℕ, sym, ap, subst, inl, inr, Bool-cases, Option-cases, write_all}
use rsj.Prelude.Int.{ℤ, pos, eqb_ℤ, ltb_ℤ}
use rsj.Structures.{RsjPair, LookupBid, LookupAsk}
use rsj.Comparison.{int_comparison}
use rsj.RbTable.{RbTable}
use rsj.OrderBook.{Book}
use rsj.OrderBook.Best.{IsVolume, IsBid, IsAsk}
use rsj.OrderBook.Best.Bids.{best_bid-IsVolume}
use rsj.OrderBook.Best.Asks.{best_ask-IsVolume}
use rsj.Table.{
  pair_of, bids_update, asks_update, new_best_bid, same_best_bid, new_best_ask, same_best_ask,
}
use rsj.Table.Holds.{HoldsBids, HoldsAsks, bids_update-HoldsBids, asks_update-HoldsAsks}

module _ (T : RbTable int_comparison) where
  open T use {Table, rb_replace, rb_delete, rb_t_first, rb_t_last}

  abbrev pub BidVolumes : LookupBid Table → Type 0
  BidVolumes bids = (j : ℕ) → IsVolume (bids.history j).vol_bid

  abbrev pub AskVolumes : LookupAsk Table → Type 0
  AskVolumes asks = (j : ℕ) → IsVolume (asks.history j)

  -- Every entry after bids_insert is one from before or the cached best level.
  bids_update_history :
      (bids : LookupBid Table) (s : ℕ) (vol price : ℤ)
      → BidVolumes bids
      → IsVolume (bids_update T bids s vol price).vol_bid
      → BidVolumes (bids_update T bids s vol price)
  unfolding bids_update new_best_bid same_best_bid
  bids_update_history bids s vol price h =
      let tree = (rb_delete (rb_replace bids.tree (pair_of vol price)).0 (pair_of vol price)).0 in
      elim (Bool-cases (eqb_ℤ vol (pos 0))) [
        | inl gone ↦ elim (Bool-cases (eqb_ℤ price bids.price_bid)) [
          | inl best ↦ elim (Option-cases (rb_t_last tree)) [
            | inl e ↦ rw (gone, best) (rw (e, new_best_bid) (λ v. write_all Q bids.history s _ v h))
            | inr (m, e) ↦
                rw (gone, best) (rw (e, new_best_bid) (λ v. write_all Q bids.history s _ v h))
          ]
          | inr other ↦ rw (gone, other) (λ v. write_all Q bids.history s _ (h _) h)
        ]
        | inr set ↦ elim (Bool-cases (ltb_ℤ price bids.price_bid)) [
          | inl worse ↦ rw (set, worse) (λ v. write_all Q bids.history s _ (h _) h)
          | inr better ↦ rw (set, better) (λ v. write_all Q bids.history s _ v h)
        ]
      ]
    where
      Q : ℕ → RsjPair → Type 0
      Q j x = IsVolume x.vol_bid

  pub bids_update-BidVolumes :
      (book : Book) (bids : LookupBid Table) (s : ℕ) (vol price : ℤ)
      → IsBid (pair_of vol price)
      → HoldsBids T book bids
      → BidVolumes bids
      → BidVolumes (bids_update T bids s vol price)
  bids_update-BidVolumes book bids s vol price v h all =
      let holds = bids_update-HoldsBids T book bids s vol price v h in
      bids_update_history bids s vol price all (
        subst IsVolume (sym (ap (λ (p : RsjPair). p.vol_bid) holds.cached))
          (best_bid-IsVolume _ holds.valid))

  asks_update_history :
      (asks : LookupAsk Table) (s : ℕ) (vol price : ℤ)
      → AskVolumes asks
      → IsVolume (asks_update T asks s vol price).vol_ask
      → AskVolumes (asks_update T asks s vol price)
  unfolding asks_update new_best_ask same_best_ask
  asks_update_history asks s vol price h =
      let tree = (rb_delete (rb_replace asks.tree (pair_of vol price)).0 (pair_of vol price)).0 in
      elim (Bool-cases (eqb_ℤ vol (pos 0))) [
        | inl gone ↦ elim (Bool-cases (eqb_ℤ price asks.price_ask)) [
          | inl best ↦ elim (Option-cases (rb_t_first tree)) [
            | inl e ↦ rw (gone, best) (rw (e, new_best_ask) (λ v. write_all Q asks.history s _ v h))
            | inr (m, e) ↦
                rw (gone, best) (rw (e, new_best_ask) (λ v. write_all Q asks.history s _ v h))
          ]
          | inr other ↦ rw (gone, other) (λ v. write_all Q asks.history s _ (h _) h)
        ]
        | inr set ↦ elim (Bool-cases (ltb_ℤ asks.price_ask price)) [
          | inl worse ↦ rw (set, worse) (λ v. write_all Q asks.history s _ (h _) h)
          | inr better ↦ rw (set, better) (λ v. write_all Q asks.history s _ v h)
        ]
      ]
    where
      Q : ℕ → ℤ → Type 0
      Q j x = IsVolume x

  pub asks_update-AskVolumes :
      (book : Book) (asks : LookupAsk Table) (s : ℕ) (vol price : ℤ)
      → IsAsk (pair_of vol price)
      → HoldsAsks T book asks
      → AskVolumes asks
      → AskVolumes (asks_update T asks s vol price)
  asks_update-AskVolumes book asks s vol price v h all =
      let holds = asks_update-HoldsAsks T book asks s vol price v h in
      asks_update_history asks s vol price all (
        subst IsVolume (sym (ap (λ (p : RsjPair). p.vol_bid) holds.cached))
          (best_ask-IsVolume _ holds.valid))
