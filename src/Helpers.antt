-- ===== src/Helpers.antt =====
-- helpers.h: the indices into the histories, with the wrap-around of `unsigned int`.
use rsj.Prelude.{ℕ, ◌+◌, ◌-◌, ◌%◌, ◌^◌, ◌<◌, ◌≡◌, ◌≢◌, refl, arith}
use rsj.Structures.{history_size, specific_history_size}

unfoldable pub prev_index : ℕ → ℕ
prev_index index = (index + 2 ^ 32 - 1) % 2 ^ 32 % history_size

unfoldable pub next_index : ℕ → ℕ
next_index index = (index + 1) % 2 ^ 32 % history_size

unfoldable pub prev_index_spec : ℕ → ℕ
prev_index_spec index = (index + 2 ^ 32 - 1) % 2 ^ 32 % specific_history_size

-- The indices stay inside the histories, also when the arithmetic wraps.
pub index_bounds :
    (index : ℕ)
    → (prev_index index < history_size)
      × (next_index index < history_size)
      × (prev_index_spec index < specific_history_size)
unfolding prev_index next_index prev_index_spec
index_bounds index = omega arith

-- Inside a history, `next_index` and `prev_index` undo one another, and neither stays in place.
pub index_inverse :
    (index : ℕ)
    → index < history_size
    → (prev_index (next_index index) ≡ index)
      × (next_index (prev_index index) ≡ index)
      × (prev_index index ≢ index)
unfolding prev_index next_index
index_inverse index h = omega arith

-- A counter that wraps at 2 ^ 32 walks round a history one place at a time: the place before that of
-- the incremented counter is the place of the counter.
pub counter_walks :
    (counter : ℕ)
    → counter < 2 ^ 32
    → (prev_index ((counter + 1) % 2 ^ 32 % history_size) ≡ counter % history_size)
      × (prev_index_spec ((counter + 1) % 2 ^ 32 % specific_history_size)
          ≡ counter % specific_history_size)
unfolding prev_index prev_index_spec
counter_walks counter h = omega arith

-- The two histories have the same size, so their indices are the same.
pub prev_index-eq : (index : ℕ) → prev_index index ≡ prev_index_spec index
unfolding prev_index prev_index_spec
prev_index-eq index = refl

-- The place before a place of a history is another place.
pub prev_index_spec-ne : (index : ℕ) → index < specific_history_size → prev_index_spec index ≢ index
unfolding prev_index_spec
prev_index_spec-ne index h = omega arith

pub next_index-ne : (index : ℕ) → index < history_size → index ≢ next_index index
unfolding next_index
next_index-ne index h = omega arith

pub prev_index-ne-next : (index : ℕ) → index < history_size → prev_index index ≢ next_index index
unfolding prev_index next_index
prev_index-ne-next index h = omega arith
