-- ===== src/Memory.antt =====
-- table.h: the allocation and the release of the pairs in bids_insert and asks_insert, which do the
-- same here. A tree holds pointers to pairs; a pair is not written once it is in a tree.
pub mod Owned
pub mod Insert
pub mod Levels
pub mod Pairs
use rsj.Prelude.{ℕ, ◌≡◌, Bool, true, false, Option, none, some, List, [], ◌∷◌, ◌==◌, if◌then◌else◌}
use rsj.Prelude.Int.{ℤ, pos, eqb_ℤ}
use rsj.Structures.{RsjPair}
use rsj.Comparison.{int_comparison}
use rsj.RbTable.{RbTable}
use rsj.Table.{pair_of}

-- `malloc` and `free` of the C library, with what they do to the addresses in use.
pub record Allocator : Type 1 where
  pub Heap : Type 0
  pub live : Heap → ℕ → Bool
  pub malloc : Heap → ℕ × Heap
  pub free : Heap → ℕ → Heap
  pub malloc_fresh : (h : Heap) → live h (malloc h).0 ≡ false
  pub live-malloc :
      (h : Heap) (a : ℕ) → live (malloc h).1 a ≡ (if a == (malloc h).0 then true else live h a)
  pub live-free : (h : Heap) (b a : ℕ) → live (free h b) a ≡ (if a == b then false else live h a)

-- A pointer to a pair, with the pair.
pub record Block : Type 0 where
  pub address : ℕ
  pub pair : RsjPair

-- `int_comparison` on pointers.
unfoldable pub block_comparison : Block → Block → ℤ
block_comparison a b = int_comparison a.pair b.pair

module _ (A : Allocator) (T : RbTable block_comparison) where
  open A use {Heap, live, malloc, free}
  open T use {Table, rb_replace, rb_delete}

  -- `free` of a null pointer does nothing; to free what is not in use is undefined (`none`).
  unfoldable pub release : Option Block → Heap → Option Heap
  release none h = some h
  release (some b) h = if live h b.address then some (free h b.address) else none

  -- What bids_insert and asks_insert do to the tree and the heap.
  unfoldable pub insert_pair : Table → Heap → ℤ → ℤ → Option (Table × Heap)
  unfolding release
  insert_pair tree h vol price =
      let b : Block = record { address = (malloc h).0; pair = pair_of vol price } in
      let replaced = rb_replace tree b in
      elim (release replaced.1 (malloc h).1) [
        | none ↦ none
        | some h1 ↦
            let deleted = rb_delete replaced.0 b in
            if eqb_ℤ vol (pos 0)
            then elim (release deleted.1 h1) [ none ↦ none | some h2 ↦ some (deleted.0, h2) ]
            else some (replaced.0, h1)
      ]

  -- A sequence of insertions, with their volumes and prices.
  unfoldable pub insert_pairs : List (ℤ × ℤ) → Table → Heap → Option (Table × Heap)
  insert_pairs [] tree h = some (tree, h)
  insert_pairs ((vol, price) ∷ rest) tree h = elim (insert_pair tree h vol price) [
    | none ↦ none
    | some (next, h1) ↦ insert_pairs rest next h1
  ]
