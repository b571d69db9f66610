-- ===== src/OrderBook/Best.antt =====
-- What is assumed of the levels of a book (table.h), and what setting a level is.
pub mod Bids
pub mod Asks
use rsj.Prelude.{
  ◌-◌, ◌^◌, ◌≡◌, sym, ◌∙◌, none, some, true, false, inl, inr, arith, Option-cases, Bool-cases,
}
use rsj.Prelude.Int.{ℤ, pos, eqb_ℤ, ltb_ℤ, ◌≤ℤ◌, eq_of_parts}
use rsj.Structures.{RsjPair}
use rsj.OrderBook.{
  Book, level, remove_level, put_level, set_level, highest, lowest, best_bid, best_ask, int_max,
}
use rsj.OrderBook.Laws.{
  level_congr, level-remove, level-put, highest-none, highest_found, highest_bound, lowest-none,
  lowest_found, lowest_bound,
}

-- What the market promises of a level: its volume is not negative and below 2 ^ 30, so that the sum of
-- two volumes is an `int`; a bid's price is not negative, and an ask's price is an `int`.
abbrev pub IsVolume : ℤ → Type 0
IsVolume v = (pos 0 ≤ℤ v) × (v ≤ℤ pos (2 ^ 30 - 1))

abbrev pub IsBid : RsjPair → Type 0
IsBid x = (pos 0 ≤ℤ x.price_bid) × IsVolume x.vol_bid

abbrev pub IsAsk : RsjPair → Type 0
IsAsk x = (x.price_bid ≤ℤ pos int_max) × IsVolume x.vol_bid

abbrev pub IsBidBook : Book → Type 0
IsBidBook book = (y z : RsjPair) → level book y ≡ some z → IsBid z

abbrev pub IsAskBook : Book → Type 0
IsAskBook book = (y z : RsjPair) → level book y ≡ some z → IsAsk z

-- A level of volume zero leaves, any other is set; both sides of the book.
pub set_level-remove :
    (book : Book) (x : RsjPair)
    → eqb_ℤ x.vol_bid (pos 0) ≡ true
    → set_level book x ≡ remove_level book x
unfolding set_level
set_level-remove book x h = rw h

pub set_level-put :
    (book : Book) (x : RsjPair)
    → eqb_ℤ x.vol_bid (pos 0) ≡ false
    → set_level book x ≡ put_level book x
unfolding set_level
set_level-put book x h = rw h
