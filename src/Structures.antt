-- ===== src/Structures.antt =====
-- structures.h: the constants and the data that the parts of the program share.
-- `int` is ℤ. `unsigned int` is ℕ, and what wraps is written with `% 2 ^ 32`. The field `instrument`
-- is only used as an index: it is the bit pattern of the `int`, so that a negative value is a
-- number of 2 ^ 31 or more, out of range like any other that is not below `instrument_count`.
use rsj.Prelude.{ℕ}
use rsj.Prelude.Int.{ℤ}

abbrev pub thread_count : ℕ
thread_count = 2

abbrev pub history_size : ℕ
history_size = 16

abbrev pub specific_history_size : ℕ
specific_history_size = 16

abbrev pub buffer_size : ℕ
buffer_size = 2

abbrev pub instrument_count : ℕ
instrument_count = 20

-- `struct rsj_data_in`, less its padding.
pub record RsjDataIn : Type 0 where
  pub seq_num : ℤ
  pub instrument : ℕ
  pub price : ℤ
  pub volume : ℤ
  pub side : ℤ
  pub order_index : ℕ
  pub specific_index : ℕ

-- `struct rsj_pair`, of both sides of the book.
pub record RsjPair : Type 0 where
  pub vol_bid : ℤ
  pub price_bid : ℤ

-- `struct lookup_bid`, over the type of the tree.
pub record LookupBid (Tree : Type 0) : Type 0 where
  pub vol_bid : ℤ
  pub price_bid : ℤ
  pub tree : Tree
  pub history : ℕ → RsjPair

-- `struct lookup_ask`: its history keeps volumes only.
pub record LookupAsk (Tree : Type 0) : Type 0 where
  pub vol_ask : ℤ
  pub price_ask : ℤ
  pub tree : Tree
  pub history : ℕ → ℤ
