-- ===== src/RbTable.antt =====
-- rb.h and rb.c are GNU libavl, a copy of another project's library: what the program uses of it is
-- a parameter. The laws are what the comments of rb.h and rb.c say of each function, for a tree of
-- items under the comparison that `rb_create` was given; allocation is taken to succeed, and the
-- item that `rb_replace` is called with is a fresh one, so a null result means "no duplicate".
pub mod Agree
use rsj.Prelude.{◌≡◌, Bool, Option, none, some, if◌then◌else◌}
use rsj.Prelude.Int.{ℤ, pos, eqb_ℤ, ◌≤ℤ◌}

-- Whether `compare` takes two items for the same.
unfoldable pub matches : {Item : Type 0} → (Item → Item → ℤ) → Item → Item → Bool
matches compare x y = eqb_ℤ (compare x y) (pos 0)

pub record RbTable {Item : Type 0} (compare : Item → Item → ℤ) : Type 1 where
  pub Table : Type 0
  pub rb_create : Table
  pub rb_find : Table → Item → Option Item
  pub rb_replace : Table → Item → Table × Option Item
  pub rb_delete : Table → Item → Table × Option Item
  pub rb_t_first : Table → Option Item
  pub rb_t_last : Table → Option Item
  -- A search finds an item that matches, and depends on the key only.
  pub find_match : (t : Table) (x y : Item) → rb_find t x ≡ some y → compare x y ≡ pos 0
  pub find_congr : (t : Table) (x y : Item) → compare x y ≡ pos 0 → rb_find t x ≡ rb_find t y
  pub find-create : (x : Item) → rb_find rb_create x ≡ none
  pub find-replace :
      (t : Table) (x y : Item)
      → rb_find (rb_replace t x).0 y ≡ (if matches compare y x then some x else rb_find t y)
  pub replaced : (t : Table) (x : Item) → (rb_replace t x).1 ≡ rb_find t x
  pub find-delete :
      (t : Table) (x y : Item)
      → rb_find (rb_delete t x).0 y ≡ (if matches compare y x then none else rb_find t y)
  pub deleted : (t : Table) (x : Item) → (rb_delete t x).1 ≡ rb_find t x
  pub first_none : (t : Table) → rb_t_first t ≡ none → (x : Item) → rb_find t x ≡ none
  pub first_some :
      (t : Table) (x : Item)
      → rb_t_first t ≡ some x
      → (rb_find t x ≡ some x) × ((y z : Item) → rb_find t y ≡ some z → compare x z ≤ℤ pos 0)
  pub last_none : (t : Table) → rb_t_last t ≡ none → (x : Item) → rb_find t x ≡ none
  pub last_some :
      (t : Table) (x : Item)
      → rb_t_last t ≡ some x
      → (rb_find t x ≡ some x) × ((y z : Item) → rb_find t y ≡ some z → compare z x ≤ℤ pos 0)
