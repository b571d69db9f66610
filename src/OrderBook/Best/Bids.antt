-- ===== src/OrderBook/Best/Bids.antt =====
-- What setting a level does to the best bid of a book.
use rsj.Prelude.{◌≡◌, sym, ◌∙◌, none, some, true, false, inl, inr, arith, Option-cases, Bool-cases}
use rsj.Prelude.Int.{pos, eqb_ℤ, ltb_ℤ, ◌≤ℤ◌, eq_of_parts}
use rsj.Structures.{RsjPair}
use rsj.OrderBook.{Book, level, remove_level, put_level, set_level, highest, best_bid}
use rsj.OrderBook.Laws.{
  level_congr, level-remove, level-put, highest-none, highest_found, highest_bound,
}
use rsj.OrderBook.Best.{IsVolume, IsBid, IsBidBook}

highest_unique :
    (book : Book) (x : RsjPair)
    → level book x ≡ some x
    → ((y z : RsjPair) → level book y ≡ some z → z.price_bid ≤ℤ x.price_bid)
    → highest book ≡ some x
highest_unique book x found bound = elim (Option-cases (highest book)) [
  | inl e ↦ cc (found, highest-none book e x)
  | inr (m, e) ↦
      let low : m.price_bid ≤ℤ x.price_bid = bound m m (highest_found book m e) in
      let high : x.price_bid ≤ℤ m.price_bid = highest_bound book m x x e found in
      cc (
        e,
        found,
        highest_found book m e,
        level_congr book x m (eq_of_parts x.price_bid m.price_bid (omega arith)),
      )
]

pub best_bid_of : (book : Book) (m : RsjPair) → highest book ≡ some m → best_bid book ≡ m
unfolding best_bid
best_bid_of book m e = rw (e, best_bid)

pub best_bid-none :
    (book : Book)
    → highest book ≡ none
    → best_bid book ≡ record { vol_bid = pos 0; price_bid = pos 0 }
unfolding best_bid
best_bid-none book e = rw (e, best_bid)

best_bid_bound :
    (book : Book) (y z : RsjPair) → level book y ≡ some z → z.price_bid ≤ℤ (best_bid book).price_bid
best_bid_bound book y z q = elim (Option-cases (highest book)) [
  | inl e ↦ cc (q, highest-none book e y)
  | inr (m, e) ↦ rw (best_bid_of book m e) (highest_bound book m y z e q)
]

module _ (book : Book) (x : RsjPair) where
  put-self-best_bid : level (put_level book x) x ≡ some x
  put-self-best_bid = ground (arith, level-put book x x)

  -- A price at least as good as the best becomes the best.
  pub best_bid-put_above :
      ltb_ℤ x.price_bid (best_bid book).price_bid ≡ false → best_bid (put_level book x) ≡ x
  best_bid-put_above h = best_bid_of _ x (
      highest_unique (put_level book x) x put-self-best_bid
        λ y z q. ground (arith, level-put book x y, best_bid_bound book y z))

  -- A worse price leaves the best as it is.
  pub best_bid-put_below :
      pos 0 ≤ℤ x.price_bid
      → ltb_ℤ x.price_bid (best_bid book).price_bid ≡ true
      → best_bid (put_level book x) ≡ best_bid book
  best_bid-put_below n h = elim (Option-cases (highest book)) [
    | inl e ↦ absurd (unfold best_bid in ground (arith, e))
    | inr (m, e) ↦
        let known : best_bid book ≡ m = best_bid_of book m e in
        best_bid_of _ m (
          highest_unique (put_level book x) m
            (ground (arith, known, level-put book x m, highest_found book m e))
            λ y z q. ground (arith, known, level-put book x y, highest_bound book m y z e))
        ∙ sym known
  ]

  -- Removing a level of another price leaves the best as it is.
  pub best_bid-remove_other :
      eqb_ℤ x.price_bid (best_bid book).price_bid ≡ false
      → best_bid (remove_level book x) ≡ best_bid book
  best_bid-remove_other h = elim (Option-cases (highest book)) [
    | inl e ↦ elim (Option-cases (highest (remove_level book x))) [
      | inl f ↦ best_bid-none _ f ∙ sym (best_bid-none _ e)
      | inr (k, f) ↦ absurd (
          ground (
            arith,
            highest_found (remove_level book x) k f,
            level-remove book x k,
            highest-none book e k,
          ))
    ]
    | inr (m, e) ↦
        let known : best_bid book ≡ m = best_bid_of book m e in
        best_bid_of _ m (
          highest_unique (remove_level book x) m
            (ground (arith, known, level-remove book x m, highest_found book m e))
            λ y z q. ground (arith, level-remove book x y, highest_bound book m y z e))
        ∙ sym known
  ]

  pub set_level-IsBidBook : IsBid x → IsBidBook book → IsBidBook (set_level book x)
  unfolding set_level
  set_level-IsBidBook n h y z q = elim (Bool-cases (eqb_ℤ x.vol_bid (pos 0))) [
    | inl e ↦ ground (arith, h y z, level-remove book x y)
    | inr e ↦ ground (arith, h y z, level-put book x y)
  ]

-- The volume of the best bid is a volume.
pub best_bid-IsVolume : (book : Book) → IsBidBook book → IsVolume (best_bid book).vol_bid
best_bid-IsVolume book h = elim (Option-cases (highest book)) [
  | inl e ↦ rw (best_bid-none book e) (omega arith)
  | inr (m, e) ↦ rw (best_bid_of book m e) (h m m (highest_found book m e)).1
]
