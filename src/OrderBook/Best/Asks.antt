-- ===== src/OrderBook/Best/Asks.antt =====
-- What setting a level does to the best ask of a book.
use rsj.Prelude.{◌≡◌, sym, ◌∙◌, none, some, true, false, inl, inr, arith, Option-cases, Bool-cases}
use rsj.Prelude.Int.{pos, eqb_ℤ, ltb_ℤ, ◌≤ℤ◌, eq_of_parts}
use rsj.Structures.{RsjPair}
use rsj.OrderBook.{Book, level, remove_level, put_level, set_level, lowest, best_ask, int_max}
use rsj.OrderBook.Laws.{
  level_congr, level-remove, level-put, lowest-none, lowest_found, lowest_bound,
}
use rsj.OrderBook.Best.{IsVolume, IsAsk, IsAskBook}

lowest_unique :
    (book : Book) (x : RsjPair)
    → level book x ≡ some x
    → ((y z : RsjPair) → level book y ≡ some z → x.price_bid ≤ℤ z.price_bid)
    → lowest book ≡ some x
lowest_unique book x found bound = elim (Option-cases (lowest book)) [
  | inl e ↦ cc (found, lowest-none book e x)
  | inr (m, e) ↦
      let low : x.price_bid ≤ℤ m.price_bid = bound m m (lowest_found book m e) in
      let high : m.price_bid ≤ℤ x.price_bid = lowest_bound book m x x e found in
      cc (
        e,
        found,
        lowest_found book m e,
        level_congr book x m (eq_of_parts x.price_bid m.price_bid (omega arith)),
      )
]

pub best_ask_of : (book : Book) (m : RsjPair) → lowest book ≡ some m → best_ask book ≡ m
unfolding best_ask
best_ask_of book m e = rw (e, best_ask)

pub best_ask-none :
    (book : Book)
    → lowest book ≡ none
    → best_ask book ≡ record { vol_bid = pos 0; price_bid = pos int_max }
unfolding best_ask
best_ask-none book e = rw (e, best_ask)

best_ask_bound :
    (book : Book) (y z : RsjPair) → level book y ≡ some z → (best_ask book).price_bid ≤ℤ z.price_bid
best_ask_bound book y z q = elim (Option-cases (lowest book)) [
  | inl e ↦ cc (q, lowest-none book e y)
  | inr (m, e) ↦ rw (best_ask_of book m e) (lowest_bound book m y z e q)
]

module _ (book : Book) (x : RsjPair) where
  put-self-best_ask : level (put_level book x) x ≡ some x
  put-self-best_ask = ground (arith, level-put book x x)

  -- A price at least as good as the best becomes the best.
  pub best_ask-put_below :
      ltb_ℤ (best_ask book).price_bid x.price_bid ≡ false → best_ask (put_level book x) ≡ x
  best_ask-put_below h = best_ask_of _ x (
      lowest_unique (put_level book x) x put-self-best_ask
        λ y z q. ground (arith, level-put book x y, best_ask_bound book y z))

  -- A worse price leaves the best as it is.
  pub best_ask-put_above :
      x.price_bid ≤ℤ pos int_max
      → ltb_ℤ (best_ask book).price_bid x.price_bid ≡ true
      → best_ask (put_level book x) ≡ best_ask book
  best_ask-put_above n h = elim (Option-cases (lowest book)) [
    | inl e ↦ absurd (unfold best_ask in ground (arith, e))
    | inr (m, e) ↦
        let known : best_ask book ≡ m = best_ask_of book m e in
        best_ask_of _ m (
          lowest_unique (put_level book x) m
            (ground (arith, known, level-put book x m, lowest_found book m e))
            λ y z q. ground (arith, known, level-put book x y, lowest_bound book m y z e))
        ∙ sym known
  ]

  -- Removing a level of another price leaves the best as it is.
  pub best_ask-remove_other :
      eqb_ℤ x.price_bid (best_ask book).price_bid ≡ false
      → best_ask (remove_level book x) ≡ best_ask book
  best_ask-remove_other h = elim (Option-cases (lowest book)) [
    | inl e ↦ elim (Option-cases (lowest (remove_level book x))) [
      | inl f ↦ best_ask-none _ f ∙ sym (best_ask-none _ e)
      | inr (k, f) ↦ absurd (
          ground (
            arith,
            lowest_found (remove_level book x) k f,
            level-remove book x k,
            lowest-none book e k,
          ))
    ]
    | inr (m, e) ↦
        let known : best_ask book ≡ m = best_ask_of book m e in
        best_ask_of _ m (
          lowest_unique (remove_level book x) m
            (ground (arith, known, level-remove book x m, lowest_found book m e))
            λ y z q. ground (arith, level-remove book x y, lowest_bound book m y z e))
        ∙ sym known
  ]

  pub set_level-IsAskBook : IsAsk x → IsAskBook book → IsAskBook (set_level book x)
  unfolding set_level
  set_level-IsAskBook n h y z q = elim (Bool-cases (eqb_ℤ x.vol_bid (pos 0))) [
    | inl e ↦ ground (arith, h y z, level-remove book x y)
    | inr e ↦ ground (arith, h y z, level-put book x y)
  ]

-- The volume of the best ask is a volume.
pub best_ask-IsVolume : (book : Book) → IsAskBook book → IsVolume (best_ask book).vol_bid
best_ask-IsVolume book h = elim (Option-cases (lowest book)) [
  | inl e ↦ rw (best_ask-none book e) (omega arith)
  | inr (m, e) ↦ rw (best_ask_of book m e) (h m m (lowest_found book m e)).1
]
