-- ===== src/Threads/Totalled.antt =====
-- The sums, and the results that the consumer was told, as one worker moves (worker.cc): in whatever order
-- they were told, they are those of the market.
use rsj.Prelude.{
  ℕ, suc, ◌+◌, ◌≡◌, ◌≢◌, refl, sym, ◌∙◌, subst, Option, List, [], ◌∷◌, ◌++◌, append_assoc, arith,
}
use mathlib.Core.List.{Perm, perm_middle, perm_append_comm}
use mathlib.Core.List.Perm
use rsj.Prelude.Int.{ℤ}
use rsj.Structures.{RsjDataIn}
use rsj.Platform.{Platform}
use rsj.Context.{Context}
use rsj.Producer.{Update}
use rsj.Turns.Local.{busy, number, Local, Inv}
use rsj.Threads.Defs.{Stage, storing, passing_sum, World, store_result, advance}
use rsj.Threads.Links.{Ensures, Ensures-map, IsNumbered, HasUpdate, pc_of_stage, shared_of}
use rsj.Threads.Books.{on-Ensures}
use rsj.Threads.Verdicts.{verdict, Judged}
use rsj.Threads.Totals.{market_after, market_after-Adds}
use rsj.Threads.Told.{pending_sum, told, early, TotalsStay, advance-TotalsStay}
use rsj.Threads.Sums.{Sums, same-Sums, Answered, store_result-Sums}

pub perm_swap : {A : Type 0} (a b r : List A) → Perm (a ++ (b ++ r)) (b ++ (a ++ r))
perm_swap a b r =
    subst (λ l. Perm l (b ++ (a ++ r))) (append_assoc a b r)
      (subst (λ l. Perm ((a ++ b) ++ r) l) (append_assoc b a r)
        (Perm.append (perm_append_comm a b) Perm.rfl))

-- A result that was told early, or is told now.
told_now :
    {A : Type 0} (fresh told f r l : List A) (a : A)
    → fresh ++ told ≡ a ∷ []
    → Perm l (told ++ (f ++ r))
    → Perm (fresh ++ l) (f ++ (a ∷ r))
told_now fresh told f r l a whole h = Perm.trans (Perm.append (Perm.rfl {l = fresh}) h) (
    subst (λ x. Perm x (f ++ (a ∷ r))) (append_assoc fresh told (f ++ r))
      (rw whole (Perm.symm (perm_middle f r))))

module _ (P : Platform) (feed : ℕ → Update) where
  open P.doubles use {Double}

  -- The results that were told: those of the market after `k` updates, and the early ones.
  abbrev pub Tells : ℕ → List (ℤ × Double) → List (ℤ × Double) → Context P → Type 0
  Tells k e f c = Perm c.results (e ++ (f ++ (market_after P feed k).results))

  -- The sums and the results, seen from one worker, when `k` sums of the other are pending and it has told
  -- `f` early.
  abbrev pub Totalled : ℕ → List (ℤ × Double) → Stage Double → World P → Type 0
  Totalled k f p w =
      Sums P feed (w.summed + pending_sum p + k) w.context
      × Tells (w.summed + pending_sum p + k) (early P p) f w.context

  -- What a worker knows that is about to store its sum.
  abbrev pub SumReady : Stage Double → World P → ℕ → Type 0
  SumReady (storing n d x) w k = IsNumbered P feed n d × (n ≡ w.summed) × (k ≡ 0)
  SumReady _ w k = Unit

  none_pending :
      (q : Stage Double) (w : World P)
      → Local P.sync (shared_of P feed w) (pc_of_stage q)
      → (busy (pc_of_stage q) ≡ 1 → w.summed ≢ number (pc_of_stage q))
      → pending_sum q ≡ 0
  none_pending (passing_sum m d) w h ne = absurd (ne refl h.1)
  none_pending q w h ne = refl

  pub stage-SumReady :
      (p q : Stage Double) (w : World P)
      → Inv P.sync (shared_of P feed w) (pc_of_stage p) (pc_of_stage q)
      → HasUpdate P feed p
      → SumReady p w (pending_sum q)
  stage-SumReady (storing n d x) q w i h =
      let next = i.first.1 in
      (h, sym next, none_pending q w i.second (λ b e. i.distinct refl b (sym next ∙ e)))
  stage-SumReady p q w i h = tt

  pub stay-Totalled :
      (p p' : Stage Double) (w w' : World P) (k : ℕ) (f : List (ℤ × Double))
      → TotalsStay P w p p' w'
      → Totalled k f p w
      → Totalled k f p' w'
  stay-Totalled p p' w w' k f (s, g, count, more, said, before) (sums, tells) =
      subst (λ j. Sums P feed (j + k) w'.context × Tells (j + k) (early P p') f w'.context) count
        (
          same-Sums P feed sums s g,
          rw (said, before, append_assoc more (early P p) _) (Perm.append Perm.rfl tells),
        )

  stored-Totalled :
      (n : ℕ) (d : RsjDataIn) (x : Option Double) (c : Context P) (f : List (ℤ × Double))
      → IsNumbered P feed n d
      → verdict P feed n ≡ x
      → Sums P feed n c
      → Tells n (told P d x) f c
      → Ensures (store_result P d x c) (λ _ c'. Sums P feed (suc n) c' × Tells (suc n) [] f c')
  stored-Totalled n d x c f (numbered, fits, at) judged sums tells =
      Ensures-map (store_result P d x c)
        (λ _ c' (s, (fresh, said, whole)). (
          s,
          rw (said, (market_after-Adds P feed n).results)
              (told_now fresh (told P d x) f _ _ _ whole tells),
        ))
        (subst
          (λ e.
            Ensures (store_result P e x c)
              (λ _ c'. Sums P feed (suc n) c' × Answered P feed n e x c c'))
          (sym numbered) (store_result-Sums P feed n d.specific_index c at fits sums x judged))

  pub advance-Totalled :
      (p : Stage Double) (w : World P) (k : ℕ) (f : List (ℤ × Double))
      → SumReady p w k
      → Judged P feed p
      → Totalled k f p w
      → Ensures (advance P p w) (Totalled k f)
  unfolding advance
  advance-Totalled (storing n d x) w k f (numbered, next, alone) judged (sums, tells) =
      let now : w.summed + 0 + k ≡ n = omega (arith, next, alone) in
      let then : suc n ≡ w.summed + 1 + k = omega (arith, next, alone) in
      on-Ensures P (store_result P d x) (passing_sum n d) w (Totalled k f) (
        subst
          (λ j. Ensures (store_result P d x w.context) (λ _ c. Sums P feed j c × Tells j [] f c))
          then
          (stored-Totalled n d x w.context f numbered judged
            (subst (λ j. Sums P feed j w.context) now sums)
            (subst (λ j. Tells j (told P d x) f w.context) now tells)))
  advance-Totalled p w k f ready judged h =
      Ensures-map (advance P p w) (λ p' w' e. stay-Totalled p p' w w' k f e h)
        (advance-TotalsStay P p w tt)
