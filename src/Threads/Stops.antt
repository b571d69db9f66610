-- ===== src/Threads/Stops.antt =====
-- The inner loop of `worker_start` (worker.cc), which waits for an update, does not test `running`.
use rsj.Prelude.{ℕ, ◌+◌, ◌≡◌, refl, [], inl, inr, Bool-cases, Option-cases, ltb, arith}
use rsj.Structures.{instrument_count}
use rsj.Platform.{Platform}
use rsj.Context.{spins}
use rsj.Producer.{Update, numbered, update_c_style, enqueue}
use rsj.Threads.Defs.{
  Stage, polling, World, advance, produce, destructor_c_style, Threads, Step, produces, stops,
  left_moves, right_moves,
}
use rsj.Threads.Links.{Ensures}
use rsj.Threads.Runs.{Ensures-done}

module _ (P : Platform) (feed : ℕ → Update) where
  open P.doubles use {Double}

  -- The states that are reached without a further call of `Update`.
  pub data Unfed (t : Threads P feed) : Threads P feed → Type 0 where
    unmoved : Unfed t t
    moved :
        {u x : Threads P feed}
        → Unfed t u
        → Step P feed u x
        → x.world.sent ≡ u.world.sent
        → Unfed t x

  -- Both workers wait for an update, and there is none.
  pub record Starved (t : Threads P feed) : Type 0 where
    pub left : t.left ≡ polling
    pub right : t.right ≡ polling
    pub empty : P.ring.contents t.world.context.buffer ≡ []

  produce-sent : (w : World P) → Ensures (produce P feed w) (λ _ w'. w'.sent ≡ w.sent + 1)
  unfolding produce update_c_style enqueue numbered
  produce-sent w =
      let u = feed w.sent in
      elim (Bool-cases (ltb u.instrument instrument_count)) [
        | inl a ↦
            elim (Option-cases (P.ring.enqueue_spmc w.context.buffer (numbered P u w.context))) [
              | inl e ↦ rw (a, Ensures) (rw (e, Ensures) tt)
              | inr (r, e) ↦ rw (a, Ensures) (rw (e, Ensures) refl)
            ]
        | inr a ↦ rw (a, Ensures) tt
      ]

  starves :
      (p : Stage Double) (w : World P)
      → p ≡ polling
      → P.ring.contents w.context.buffer ≡ []
      → advance P p w ≡ spins
  unfolding advance
  starves p w l e = rw l (rw (P.ring.dequeue_empty w.context.buffer e, advance) refl)

  Step-Starved :
      {t u : Threads P feed} → Step P feed t u → u.world.sent ≡ t.world.sent → Starved t → Starved u
  unfolding destructor_c_style
  Step-Starved {t} (produces e) same h = absurd (
      let more = Ensures-done (λ _ w. w.sent ≡ t.world.sent + 1) e (produce-sent t.world) in
      omega (arith, more, same))
  Step-Starved {t} (stops e) same h = record {
    left = h.left;
    right = h.right;
    empty = Ensures-done (λ _ c. P.ring.contents c.buffer ≡ []) e h.empty;
  }
  Step-Starved {t} (left_moves e) same h =
      absurd (let wait = starves t.left t.world h.left h.empty in cc)
  Step-Starved {t} (right_moves e) same h =
      absurd (let wait = starves t.right t.world h.right h.empty in cc)

  -- Resetting `running` does not end the loops of workers that wait for an update: from a state in which
  -- both wait and the ring is empty, whatever is reached without a further call of `Update`, by the
  -- destructor or otherwise, both still wait.
  pub stop_unseen :
      (t u : Threads P feed) → Starved t → Unfed t u → (u.left ≡ polling) × (u.right ≡ polling)
  stop_unseen t u h r = let k = reached r in (k.left, k.right)
    where
      reached : {u : Threads P feed} → Unfed t u → Starved u
      reached unmoved = h
      reached (moved r s same) = Step-Starved s same (reached r)
