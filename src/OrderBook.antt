-- ===== src/OrderBook.antt =====
-- One side of an order book as the list of its price levels: the reference that the lookup
-- structures of the program are compared with.
pub mod Laws
pub mod Best
use rsj.Prelude.{ℕ, Bool, Option, none, some, List, [], ◌∷◌, ◌-◌, ◌^◌, if◌then◌else◌}
use rsj.Prelude.Int.{ℤ, pos, eqb_ℤ, ltb_ℤ}
use rsj.Structures.{RsjPair}

abbrev pub Book : Type 0
Book = List RsjPair

abbrev pub same_price : RsjPair → RsjPair → Bool
same_price x y = eqb_ℤ x.price_bid y.price_bid

-- The level at the price of `x`.
unfoldable pub level : Book → RsjPair → Option RsjPair
level [] x = none
level (y ∷ ys) x = if same_price x y then some y else level ys x

unfoldable pub remove_level : Book → RsjPair → Book
remove_level [] x = []
remove_level (y ∷ ys) x = let rest = remove_level ys x in if same_price x y then rest else y ∷ rest

unfoldable pub put_level : Book → RsjPair → Book
put_level book x = x ∷ remove_level book x

-- The levels of the highest and of the lowest price.
unfoldable pub highest : Book → Option RsjPair
highest [] = none
highest (y ∷ ys) = elim (highest ys) [
  | none ↦ some y
  | some z ↦ if ltb_ℤ y.price_bid z.price_bid then some z else some y
]

unfoldable pub lowest : Book → Option RsjPair
lowest [] = none
lowest (y ∷ ys) = elim (lowest ys) [
  | none ↦ some y
  | some z ↦ if ltb_ℤ z.price_bid y.price_bid then some z else some y
]

-- What an update of the market means: volume zero takes the level away, any other sets it.
unfoldable pub set_level : Book → RsjPair → Book
set_level book x = if eqb_ℤ x.vol_bid (pos 0) then remove_level book x else put_level book x

abbrev pub int_max : ℕ
int_max = 2 ^ 31 - 1

-- The best bid and the best ask; what stands for them in an empty book.
unfoldable pub best_bid : Book → RsjPair
best_bid book = elim (highest book) [
  | none ↦ record { vol_bid = pos 0; price_bid = pos 0 }
  | some x ↦ x
]

unfoldable pub best_ask : Book → RsjPair
best_ask book = elim (lowest book) [
  | none ↦ record { vol_bid = pos 0; price_bid = pos int_max }
  | some x ↦ x
]
