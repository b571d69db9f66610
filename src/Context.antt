-- ===== src/Context.antt =====
-- structures.h and globals.cc: the shared state `*global_context`, and the way in which the functions
-- of the program read and change it. The thread handles are not modelled.

use rsj.Prelude.{ℕ, Bool, List, if◌then◌else◌}
use rsj.Prelude.Int.{ℤ}
use rsj.Structures.{LookupBid, LookupAsk}
use rsj.Platform.{Platform}

-- `struct context`, over the types of trees, doubles, flags and rings. An array is a function of the
-- index. `results` is no field of the source: it lists the calls `consumer.Result(seqNum, fp)`, the
-- latest first.
pub record ContextOf (Tree Double Flag Ring : Type 0) : Type 0 where
  pub running : ℤ
  pub global_id : ℤ
  pub bids : ℕ → LookupBid Tree
  pub asks : ℕ → LookupAsk Tree
  pub order_index : ℕ
  pub order_indices_bid : ℕ → ℕ
  pub order : ℕ → Flag
  pub order_sum : ℕ → Flag
  pub sum_history : ℕ → Double
  pub fp_i_history : ℕ → ℕ → Double
  pub buffer : Ring
  pub results : List (ℤ × Double)

abbrev pub Context : Platform → Type 0
Context P = ContextOf P.rb.Table P.doubles.Double P.sync.Flag P.ring.Ring

-- What a function does when it runs alone: it ends with a result and a new state, it waits in a
-- loop for another thread, or it does what C leaves undefined (an access outside an array, an
-- overflow of `int`).
pub data Outcome (S A : Type 0) : Type 0 where
  done : A → S → Outcome S A
  spins : Outcome S A
  fault : Outcome S A

module _ {S : Type 0} where
  infixl 5 ◌>>=◌ ◌>>◌
  abbrev pub ◌>>=◌ : {A B : Type 0} → (S → Outcome S A) → (A → S → Outcome S B) → S → Outcome S B
  ◌>>=◌ m f s = elim (m s) [ done a s' ↦ f a s' | spins ↦ spins | fault ↦ fault ]

  abbrev pub ◌>>◌ : {B : Type 0} → (S → Outcome S (Unit {0})) → (S → Outcome S B) → S → Outcome S B
  m >> k = m >>= λ _. k

  abbrev pub pure : {A : Type 0} → A → S → Outcome S A
  pure a s = done a s

  abbrev pub get : S → Outcome S S
  get s = done s s

  abbrev pub modify : (S → S) → S → Outcome S (Unit {0})
  modify f s = done tt (f s)

  -- The test that ends a busy loop, and the condition of a defined access.
  abbrev pub until : (S → Bool) → S → Outcome S (Unit {0})
  until test s = if test s then done tt s else spins

  abbrev pub defined : Bool → S → Outcome S (Unit {0})
  defined test s = if test then done tt s else fault
