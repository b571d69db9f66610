-- ===== src/Platform/Sample.antt =====
-- A concrete platform, on which the program can be run: the list of levels as the tree, whole
-- numbers in the place of `double`, the ATOMIC flags, and a list as the ring.
use rsj.Prelude.{
  ℕ, ◌-◌, ◌<◌, ◌≡◌, refl, false, Option, none, some, List, [], ◌∷◌, ◌++◌, length, ltb, ltb_of_lt,
  if◌then◌else◌, arith,
}
use rsj.Prelude.Int.{ℤ, pos, ◌+ℤ◌, ◌-ℤ◌, ◌*ℤ◌}
use rsj.Structures.{RsjDataIn}
use rsj.OrderBook.Laws.{book_table}
use rsj.Sync.Atomic.{atomic_sync}
use rsj.Platform.{DoubleOps, CkRing, Platform}

-- Whole numbers: a literal keeps its digits before the point, a quotient is its dividend.
unfoldable pub whole : DoubleOps
unfolding ◌+ℤ◌ ◌-ℤ◌ ◌*ℤ◌
whole = record {
  Double = ℤ;
  decimal = λ n k. pos n;
  of_int = λ v. v;
  add = ◌+ℤ◌;
  sub = ◌-ℤ◌;
  mul = ◌*ℤ◌;
  div = λ x y. x;
  atan = λ x. x;
  isinf = λ x. false;
}

-- A ring: its capacity and what it holds, oldest first.
pub record ListRing : Type 0 where
  pub cap : ℕ
  pub items : List RsjDataIn

unfoldable pub put : ListRing → RsjDataIn → Option ListRing
put r a = if ltb (length r.items) r.cap then some (record r { items = r.items ++ a ∷ [] }) else none

unfoldable pub take : ListRing → Option (RsjDataIn × ListRing)
take r = elim r.items [ [] ↦ none | a ∷ rest ↦ some (a, record r { items = rest }) ]

pub put_room :
    (r : ListRing) (a : RsjDataIn) → length r.items < r.cap → (r' : ListRing) × (put r a ≡ some r')
unfolding put
put_room r a h = (record r { items = r.items ++ a ∷ [] }, rw (ltb_of_lt (length r.items) r.cap h))

pub put-some :
    (r : ListRing) (a : RsjDataIn) (r' : ListRing)
    → put r a ≡ some r'
    → (r'.items ≡ r.items ++ a ∷ []) × (r'.cap ≡ r.cap)
unfolding put
put-some r a r' e = ground arith

pub take_first :
    (r : ListRing) (a : RsjDataIn) (rest : List RsjDataIn)
    → r.items ≡ a ∷ rest
    → (r' : ListRing) × (take r ≡ some (a, r')) × (r'.items ≡ rest) × (r'.cap ≡ r.cap)
unfolding take
take_first r a rest e = (record r { items = rest }, rw (e, take), refl, refl)

pub take_empty : (r : ListRing) → r.items ≡ [] → take r ≡ none
unfolding take
take_empty r e = rw (e, take)

unfoldable pub list_ring : CkRing
unfolding put take
list_ring = record {
  Ring = ListRing;
  ck_ring_init = λ size. record { cap = size - 1; items = [] };
  enqueue_spmc = put;
  dequeue_spmc = take;
  contents = λ r. r.items;
  capacity = λ r. r.cap;
  contents-init = λ size. refl;
  capacity-init = λ size. refl;
  enqueue_room = put_room;
  enqueue_some = put-some;
  dequeue_first = take_first;
  dequeue_empty = take_empty;
}

unfoldable pub sample : Platform
unfolding whole list_ring
sample = record { rb = book_table; doubles = whole; sync = atomic_sync; ring = list_ring }
