-- ===== src/Threads/Schedule.antt =====
-- Runs by a schedule: which thread makes the next step.
use rsj.Prelude.{
  ℕ, ◌≡◌, refl, List, [], ◌∷◌, Option, none, some, ◌⊎◌, inl, inr, Option-cases, subst,
}
use rsj.Platform.{Platform}
use rsj.Context.{Outcome, done, spins, fault}
use rsj.Producer.{Update}
use rsj.Threads.Defs.{Threads, Reach, later, produces, left_moves, right_moves, produce, advance}

pub data Turn : Type 0 where
  producer : Turn
  left_worker : Turn
  right_worker : Turn

pub Outcome-cases :
    {S A : Type 0} (o : Outcome S A)
    → ((a : A) × (s : S) × (o ≡ done a s)) ⊎ ((o ≡ spins) ⊎ (o ≡ fault))
Outcome-cases (done a s) = inl (a, s, refl)
Outcome-cases spins = inr (inl refl)
Outcome-cases fault = inr (inr refl)

some-eq : {A : Type 0} (a b : A) → some a ≡ some b → a ≡ b
some-eq a b e = cc

not_none : {A B : Type 0} (a : A) → none ≡ some a → B
not_none a e = absurd (cc)

module _ (P : Platform) (feed : ℕ → Update) where
  -- The state after one step, if the thread has one.
  unfoldable pub play : Turn → Threads P feed → Option (Threads P feed)
  play producer t = elim (produce P feed t.world) [
    | done _ w ↦ some (record t { world = w })
    | spins ↦ none
    | fault ↦ none
  ]
  play left_worker t = elim (advance P t.left t.world) [
    | done p w ↦ some (record t { world = w; left = p })
    | spins ↦ none
    | fault ↦ none
  ]
  play right_worker t = elim (advance P t.right t.world) [
    | done p w ↦ some (record t { world = w; right = p })
    | spins ↦ none
    | fault ↦ none
  ]

  unfoldable pub play_all : List Turn → Threads P feed → Option (Threads P feed)
  play_all [] t = some t
  play_all (x ∷ xs) t = elim (play x t) [ none ↦ none | some u ↦ play_all xs u ]

  play-Reach :
      (x : Turn) (t u : Threads P feed) → Reach P feed t → play x t ≡ some u → Reach P feed u
  unfolding play
  play-Reach producer t u r e = elim (Outcome-cases (produce P feed t.world)) [
    | inl (x, w, f) ↦ subst (Reach P feed) (some-eq _ u (rw (f, play) at e)) (later r (produces f))
    | inr (inl f) ↦ not_none u (rw (f, play) at e)
    | inr (inr f) ↦ not_none u (rw (f, play) at e)
  ]
  play-Reach left_worker t u r e = elim (Outcome-cases (advance P t.left t.world)) [
    | inl (p, w, f) ↦
        subst (Reach P feed) (some-eq _ u (rw (f, play) at e)) (later r (left_moves f))
    | inr (inl f) ↦ not_none u (rw (f, play) at e)
    | inr (inr f) ↦ not_none u (rw (f, play) at e)
  ]
  play-Reach right_worker t u r e = elim (Outcome-cases (advance P t.right t.world)) [
    | inl (p, w, f) ↦
        subst (Reach P feed) (some-eq _ u (rw (f, play) at e)) (later r (right_moves f))
    | inr (inl f) ↦ not_none u (rw (f, play) at e)
    | inr (inr f) ↦ not_none u (rw (f, play) at e)
  ]

  -- A schedule that is played to its end ends in a reachable state.
  pub play_all-Reach :
      (xs : List Turn) (t u : Threads P feed)
      → Reach P feed t
      → play_all xs t ≡ some u
      → Reach P feed u
  unfolding play_all
  play_all-Reach [] t u r e = subst (Reach P feed) (some-eq t u e) r
  play_all-Reach (x ∷ xs) t u r e = elim (Option-cases (play x t)) [
    | inl f ↦ not_none u (rw (f, play_all) at e)
    | inr (v, f) ↦ play_all-Reach xs v u (play-Reach x t v r f) (rw (f, play_all) at e)
  ]
