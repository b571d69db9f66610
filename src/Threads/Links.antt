-- ===== src/Threads/Links.antt =====
-- The workers of Threads seen as those of Turns, and what the producer's numbers have to do with them.
use rsj.Prelude.{ℕ, ◌+◌, ◌%◌, ◌^◌, ◌<◌, ◌≡◌, List, [], ◌∷◌, length, ◌⊎◌}
use rsj.Structures.{RsjDataIn, specific_history_size}
use rsj.Platform.{Platform}
use rsj.Context.{Outcome, done, spins, fault}
use rsj.Producer.{Update, placed}
use rsj.Threads.Places.{earlier}
use rsj.Turns.Defs.{
  place, Shared, Pc, idle, fetched, half_ready, waiting, entered, inserting, waiting_sum,
  entered_sum, summing, Move,
}
use rsj.Threads.Defs.{
  Stage, testing, polling, clearing_next, clearing_next_sum, awaiting, clearing_own, updating,
  passing, copying, reading, returning, awaiting_sum, clearing_own_sum, storing, passing_sum,
  finished, World,
}

-- What holds of the result and the state of a function that ends.
abbrev pub Ensures : {S A : Type 0} → Outcome S A → (A → S → Type 0) → Type 0
Ensures (done a s) Q = Q a s
Ensures spins Q = Unit
Ensures fault Q = Unit

-- What is ensured may be weakened.
pub Ensures-map :
    {S A : Type 0} (o : Outcome S A) {Q R : A → S → Type 0}
    → ((a : A) (s : S) → Q a s → R a s)
    → Ensures o Q
    → Ensures o R
Ensures-map (done a s) f h = f a s h
Ensures-map spins f h = tt
Ensures-map fault f h = tt

module _ {Double : Type 0} where
  abbrev pub pc_of_stage : Stage Double → Pc
  pc_of_stage testing = idle
  pc_of_stage polling = idle
  pc_of_stage (clearing_next n d) = fetched n
  pc_of_stage (clearing_next_sum n d) = half_ready n
  pc_of_stage (awaiting n d) = waiting n
  pc_of_stage (clearing_own n d) = entered n
  pc_of_stage (updating n d) = inserting n
  pc_of_stage (passing n d) = inserting n
  pc_of_stage (copying n d) = waiting_sum n
  pc_of_stage (reading n d) = waiting_sum n
  pc_of_stage (returning n d) = waiting_sum n
  pc_of_stage (awaiting_sum n d fp) = waiting_sum n
  pc_of_stage (clearing_own_sum n d fp) = entered_sum n
  pc_of_stage (storing n d fp) = summing n
  pc_of_stage (passing_sum n d) = summing n
  pc_of_stage finished = idle

module _ (P : Platform) (feed : ℕ → Update) where
  open P.doubles use {Double}

  abbrev pub shared_of : World P → Shared P.sync
  shared_of w = record {
    order = w.context.order;
    order_sum = w.context.order_sum;
    taken = w.taken;
    inserted = w.inserted;
    summed = w.summed;
  }

  -- The update is the n-th that was sent, at its place; its place in the histories of its instrument is
  -- within them, and follows that of the instrument's update before it.
  abbrev pub IsNumbered : ℕ → RsjDataIn → Type 0
  IsNumbered n d =
      (d ≡ placed (feed n) (place n) d.specific_index)
      × (d.specific_index < specific_history_size)
      × (d.specific_index ≡ earlier feed (feed n).instrument n % specific_history_size)

  abbrev pub HasUpdate : Stage Double → Type 0
  HasUpdate testing = Unit
  HasUpdate polling = Unit
  HasUpdate (clearing_next n d) = IsNumbered n d
  HasUpdate (clearing_next_sum n d) = IsNumbered n d
  HasUpdate (awaiting n d) = IsNumbered n d
  HasUpdate (clearing_own n d) = IsNumbered n d
  HasUpdate (updating n d) = IsNumbered n d
  HasUpdate (passing n d) = IsNumbered n d
  HasUpdate (copying n d) = IsNumbered n d
  HasUpdate (reading n d) = IsNumbered n d
  HasUpdate (returning n d) = IsNumbered n d
  HasUpdate (awaiting_sum n d fp) = IsNumbered n d
  HasUpdate (clearing_own_sum n d fp) = IsNumbered n d
  HasUpdate (storing n d fp) = IsNumbered n d
  HasUpdate (passing_sum n d) = IsNumbered n d
  HasUpdate finished = Unit

  abbrev pub Queued : ℕ → List RsjDataIn → Type 0
  Queued n [] = Unit
  Queued n (d ∷ ds) = IsNumbered n d × Queued (n + 1) ds

  -- The ring holds the updates that are sent and not taken, in order.
  pub record Linked (w : World P) : Type 0 where
    pub queued : Queued w.taken (P.ring.contents w.context.buffer)
    pub count : w.taken + length (P.ring.contents w.context.buffer) ≡ w.sent
    pub counter : w.context.order_index ≡ w.sent % 2 ^ 32
    pub counters : (i : ℕ) → w.context.order_indices_bid i ≡ earlier feed i w.sent % 2 ^ 32

  -- A step of the worker of Turns, or none.
  abbrev pub Moves : Shared P.sync → Pc → Shared P.sync → Pc → Type 0
  Moves s p s' p' = Move P.sync s p s' p' ⊎ ((s ≡ s') × (p ≡ p'))

  abbrev pub Follows : World P → Stage Double → Stage Double → World P → Type 0
  Follows w p p' w' =
      Moves (shared_of w) (pc_of_stage p) (shared_of w') (pc_of_stage p') × Linked w' × HasUpdate p'
