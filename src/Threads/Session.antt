-- ===== src/Threads/Session.antt =====
-- The producer's calls of `Update`, so many in all, and the steps of the workers (worker.h, worker.cc), in
-- any order.
use rsj.Prelude.{
  ℕ, suc, ◌+◌, ◌-◌, ◌*◌, ◌<◌, ◌≤◌, ◌≡◌, ◌⊎◌, refl, ◌∙◌, ap, inl, inr, [], ◌∷◌, length,
  length-append, Bool-cases, Option-cases, ltb, arith,
}
use native.Mathlib.Decide.{ℕ_discrete}
use rsj.Structures.{instrument_count}
use rsj.Platform.{Platform}
use rsj.Context.{done}
use rsj.Producer.{Update, numbered, update_c_style, enqueue}
use rsj.Refinement.{IsUpdate}
use rsj.Threads.Defs.{World, produce, Threads, produces, Reach, later}
use rsj.Threads.Links.{Ensures}
use rsj.Threads.Runs.{Ensures-done}
use rsj.Threads.Running.{IsRunning, Works, step_of}
use rsj.Threads.Room.{Reach-HasRoom, sends}
use rsj.Threads.Drains.{Drained}
use rsj.Threads.Bound.{load, Works-Less, moves_unless_empty}

module _ (P : Platform) (feed : ℕ → Update) where
  open P.doubles use {Double}

  -- A call of `Update`, while fewer than `total` were made, or a step of a worker.
  pub data Acts (total : ℕ) (t : Threads P feed) : Threads P feed → Type 0 where
    calls :
        {w : World P}
        → t.world.sent < total
        → produce P feed t.world ≡ done tt w
        → Acts total t (record t { world = w })
    works : {u : Threads P feed} → Works P feed t u → Acts total t u

  -- So many of these.
  pub data Session (total : ℕ) (t : Threads P feed) : ℕ → Threads P feed → Type 0 where
    at_first : Session total t 0 t
    acted :
        {n : ℕ} {u x : Threads P feed}
        → Session total t n u
        → Acts total u x
        → Session total t (suc n) x

  -- At most so many are left: 15 steps for each update in the ring, and the call for one that is not sent.
  abbrev pub session_load : ℕ → Threads P feed → ℕ
  session_load total t = load P feed t + 16 * (total - t.world.sent)

  abbrev Adds : World P → World P → Type 0
  Adds w w' =
      (w'.sent ≡ w.sent + 1)
      × (w'.context.running ≡ w.context.running)
      × (length (P.ring.contents w'.context.buffer) ≡ length (P.ring.contents w.context.buffer) + 1)

  produce-Adds : (w : World P) → Ensures (produce P feed w) (λ _ w'. Adds w w')
  unfolding produce update_c_style enqueue
  produce-Adds w =
      let u = feed w.sent in
      let d = numbered P u w.context in
      elim (Bool-cases (ltb u.instrument instrument_count)) [
        | inl a ↦ elim (Option-cases (P.ring.enqueue_spmc w.context.buffer d)) [
          | inl e ↦ rw (a, Ensures) (rw (e, Ensures) tt)
          | inr (r, e) ↦
              let (held, _) = P.ring.enqueue_some w.context.buffer d r e in
              rw (a, Ensures)
                (rw (e, Ensures)
                  (
                    refl,
                    refl,
                    ap length held
                        ∙ omega (arith, length-append (P.ring.contents w.context.buffer) (d ∷ [])),
                  ))
        ]
        | inr a ↦ rw (a, Ensures) tt
      ]

  -- What holds of a state that is reached from `t` in `n` steps.
  record Proceeds (total : ℕ) (t : Threads P feed) (n : ℕ) (u : Threads P feed) : Type 0 where
    reached : Reach P feed u
    running : IsRunning P u.world.context
    sent : u.world.sent ≤ total
    left : n + session_load total u ≤ session_load total t

  Acts-Proceeds :
      (total n : ℕ) (t u x : Threads P feed)
      → Proceeds total t n u
      → Acts total u x
      → Proceeds total t (suc n) x
  Acts-Proceeds total n t u x k (calls few e) =
      let (sent, running, more) = Ensures-done (λ _ w. Adds u.world w) e (produce-Adds u.world) in
      record {
        reached = later k.reached (produces e);
        running = rw running k.running;
        sent = omega (arith, sent, few);
        left = let h = k.left in omega (arith, sent, few, more, h);
      }
  Acts-Proceeds total n t u x k (works w) =
      let (less, sent, running) = Works-Less P feed u x k.reached k.running w in
      record {
        reached = later k.reached (step_of P feed w);
        running = rw running k.running;
        sent = omega (arith, sent, k.sent);
        left = omega (arith, sent, less, k.left);
      }

  Session-Proceeds :
      (total : ℕ) (t : Threads P feed)
      → Reach P feed t
      → IsRunning P t.world.context
      → t.world.sent ≤ total
      → (n : ℕ) (u : Threads P feed) → Session total t n u
      → Proceeds total t n u
  Session-Proceeds total t r i h n u at_first = record {
    reached = r;
    running = i;
    sent = h;
    left = omega arith;
  }
  Session-Proceeds total t r i h (suc n) x (acted {u = u} s a) =
      Acts-Proceeds total n t u x (Session-Proceeds total t r i h n u s) a

  module _ (v : (n : ℕ) → IsUpdate (feed n)) where
    goes_unless_sent :
        (total : ℕ) (t : Threads P feed) (n : ℕ) (u : Threads P feed)
        → Proceeds total t n u
        → ((x : Threads P feed) × Acts total u x) ⊎ ((u.world.sent ≡ total) × Drained P feed v u u)
    goes_unless_sent total t n u k = elim (moves_unless_empty P feed v u k.reached k.running) [
      | inl (x, w) ↦ inl (x, works w)
      | inr d ↦ elim (ℕ_discrete u.world.sent total) [
        | yes e ↦ inr (e, d)
        | no ne ↦
            let (w, put, _, _) =
              sends P feed v u.world (Reach-HasRoom P feed u k.reached) d.empty in
            inl (_, calls (omega (arith, ne, k.sent)) put)
      ]
    ]

    -- The producer and the workers finish, in whatever order they move: from every reachable state in which
    -- `running` is set, with updates within the bounds and at most `total` of them sent, they make at
    -- most `session_load` steps; and after any of these one of them has a step, or `total` updates
    -- are sent, the ring is empty, neither worker has an update and the sums of all are stored.
    pub program_finishes :
        (total n : ℕ) (t u : Threads P feed)
        → Reach P feed t
        → IsRunning P t.world.context
        → t.world.sent ≤ total
        → Session total t n u
        → Reach P feed u
          × (n ≤ session_load total t)
          × (((x : Threads P feed) × Acts total u x)
              ⊎ ((u.world.sent ≡ total) × Drained P feed v u u))
    program_finishes total n t u r i h s =
        let k = Session-Proceeds total t r i h n u s in
        (k.reached, omega (arith, k.left), goes_unless_sent total t n u k)
