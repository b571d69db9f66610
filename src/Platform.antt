-- ===== src/Platform.antt =====
-- What the program runs on and does not implement: `double` arithmetic with `atan` and `isinf` of
-- libm, the ring of Concurrency Kit, the trees of libavl, and the flags of one version of sync.h.
pub mod Sample
use rsj.Prelude.{ℕ, ◌-◌, ◌<◌, ◌≡◌, Bool, Option, none, some, List, [], ◌∷◌, ◌++◌, length}
use rsj.Prelude.Int.{ℤ}
use rsj.Structures.{RsjDataIn}
use rsj.Comparison.{int_comparison}
use rsj.RbTable.{RbTable}
use rsj.Sync.{OrderSync}

-- `double` with its operations, of which nothing is assumed. `decimal n k` is the literal
-- n * 10^-k, and `of_int` the conversion of an `int`.
pub record DoubleOps : Type 1 where
  pub Double : Type 0
  pub decimal : ℕ → ℕ → Double
  pub of_int : ℤ → Double
  pub add : Double → Double → Double
  pub sub : Double → Double → Double
  pub mul : Double → Double → Double
  pub div : Double → Double → Double
  pub atan : Double → Double
  pub isinf : Double → Bool

-- `ck_ring_t` with one producer and several consumers: a bounded queue. An enqueue that returns
-- false and a dequeue that returns false are `none`. The laws are the documented behaviour: first
-- in, first out, one place less than the size, failure exactly on a full or an empty ring.
pub record CkRing : Type 1 where
  pub Ring : Type 0
  pub ck_ring_init : ℕ → Ring
  pub enqueue_spmc : Ring → RsjDataIn → Option Ring
  pub dequeue_spmc : Ring → Option (RsjDataIn × Ring)
  pub contents : Ring → List RsjDataIn
  pub capacity : Ring → ℕ
  pub contents-init : (size : ℕ) → contents (ck_ring_init size) ≡ []
  pub capacity-init : (size : ℕ) → capacity (ck_ring_init size) ≡ size - 1
  pub enqueue_room :
      (r : Ring) (a : RsjDataIn)
      → length (contents r) < capacity r
      → (r' : Ring) × (enqueue_spmc r a ≡ some r')
  pub enqueue_some :
      (r : Ring) (a : RsjDataIn) (r' : Ring)
      → enqueue_spmc r a ≡ some r'
      → (contents r' ≡ contents r ++ a ∷ []) × (capacity r' ≡ capacity r)
  pub dequeue_first :
      (r : Ring) (a : RsjDataIn) (rest : List RsjDataIn)
      → contents r ≡ a ∷ rest
      → (r' : Ring) × (dequeue_spmc r ≡ some (a, r'))
        × (contents r' ≡ rest)
        × (capacity r' ≡ capacity r)
  pub dequeue_empty : (r : Ring) → contents r ≡ [] → dequeue_spmc r ≡ none

pub record Platform : Type 1 where
  pub rb : RbTable int_comparison
  pub doubles : DoubleOps
  pub sync : OrderSync
  pub ring : CkRing
