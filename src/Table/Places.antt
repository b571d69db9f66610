-- ===== src/Table/Places.antt =====
-- bids_insert and asks_insert store one entry of the history (table.h).
use rsj.Prelude.{ℕ, ◌≡◌, ◌≢◌, inl, inr, not, write_ne, Bool-cases, Option-cases}
use rsj.Prelude.Int.{ℤ, pos, eqb_ℤ, ltb_ℤ}
use rsj.Structures.{LookupBid, LookupAsk}
use rsj.Comparison.{int_comparison}
use rsj.RbTable.{RbTable}
use rsj.Table.{
  pair_of, bids_update, new_best_bid, same_best_bid, asks_update, new_best_ask, same_best_ask,
}

module _ (T : RbTable int_comparison) where
  open T use {Table, rb_replace, rb_delete, rb_t_first, rb_t_last}

  new_best_bid-history :
      (b : LookupBid Table) (s k : ℕ) → k ≢ s → (new_best_bid T b s).history k ≡ b.history k
  unfolding new_best_bid
  new_best_bid-history b s k ne = elim (Option-cases (rb_t_last b.tree)) [
    | inl e ↦ rw (e, new_best_bid) (write_ne b.history s k _ ne)
    | inr (x, e) ↦ rw (e, new_best_bid) (write_ne b.history s k _ ne)
  ]

  new_best_ask-history :
      (a : LookupAsk Table) (s k : ℕ) → k ≢ s → (new_best_ask T a s).history k ≡ a.history k
  unfolding new_best_ask
  new_best_ask-history a s k ne = elim (Option-cases (rb_t_first a.tree)) [
    | inl e ↦ rw (e, new_best_ask) (write_ne a.history s k _ ne)
    | inr (x, e) ↦ rw (e, new_best_ask) (write_ne a.history s k _ ne)
  ]

  pub bids_update-history :
      (b : LookupBid Table) (s : ℕ) (vol price : ℤ) (k : ℕ)
      → k ≢ s
      → (bids_update T b s vol price).history k ≡ b.history k
  unfolding bids_update same_best_bid
  bids_update-history b s vol price k ne = elim (Bool-cases (eqb_ℤ vol (pos 0))) [
    | inl gone ↦ elim (Bool-cases (eqb_ℤ price b.price_bid)) [
      | inl best ↦ rw gone (
          rw best (
            new_best_bid-history
              (record b {
                tree = (rb_delete (rb_replace b.tree (pair_of vol price)).0 (pair_of vol price)).0;
              })
              s k ne))
      | inr other ↦ rw gone (rw other (write_ne b.history s k _ ne))
    ]
    | inr kept ↦ elim (Bool-cases (not (ltb_ℤ price b.price_bid))) [
      | inl best ↦ rw kept (rw best (write_ne b.history s k _ ne))
      | inr other ↦ rw kept (rw other (write_ne b.history s k _ ne))
    ]
  ]

  pub asks_update-history :
      (a : LookupAsk Table) (s : ℕ) (vol price : ℤ) (k : ℕ)
      → k ≢ s
      → (asks_update T a s vol price).history k ≡ a.history k
  unfolding asks_update same_best_ask
  asks_update-history a s vol price k ne = elim (Bool-cases (eqb_ℤ vol (pos 0))) [
    | inl gone ↦ elim (Bool-cases (eqb_ℤ price a.price_ask)) [
      | inl best ↦ rw gone (
          rw best (
            new_best_ask-history
              (record a {
                tree = (rb_delete (rb_replace a.tree (pair_of vol price)).0 (pair_of vol price)).0;
              })
              s k ne))
      | inr other ↦ rw gone (rw other (write_ne a.history s k _ ne))
    ]
    | inr kept ↦ elim (Bool-cases (not (ltb_ℤ a.price_ask price))) [
      | inl best ↦ rw kept (rw best (write_ne a.history s k _ ne))
      | inr other ↦ rw kept (rw other (write_ne a.history s k _ ne))
    ]
  ]
