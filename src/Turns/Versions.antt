-- ===== src/Turns/Versions.antt =====
-- The two versions of sync.h, SPIN and ATOMIC, under the same calls.
use rsj.Prelude.{
  ℕ, ◌-◌, ◌≡◌, sym, ◌∙◌, ap, true, false, List, [], ◌∷◌, write, if◌then◌else◌, ◌==◌, Bool-cases,
  inl, inr,
}
use rsj.Structures.{history_size}
use rsj.Sync.{OrderSync}
use rsj.Sync.Spin.{SpinLock, spin_sync}
use rsj.Sync.Atomic.{atomic_sync}
use rsj.Turns.Defs.{initial_flags}
use rsj.Turns.Local.{is_set-write_set, is_set-write_unset}

-- A call of `sync_set_order` or of `sync_unset_order`.
pub data FlagCall : Type 0 where
  set_at : ℕ → FlagCall
  unset_at : ℕ → FlagCall

module _ (S : OrderSync) where
  abbrev pub flag_call : FlagCall → (ℕ → S.Flag) → ℕ → S.Flag
  flag_call (set_at i) f = write f i (S.set (f i))
  flag_call (unset_at i) f = write f i (S.unset (f i))

  -- The flags after a sequence of calls, from those that initialize_c_style leaves.
  abbrev pub flag_calls : List FlagCall → (ℕ → S.Flag) → ℕ → S.Flag
  flag_calls [] f = f
  flag_calls (c ∷ cs) f = flag_calls cs (flag_call c f)

module _ (S T : OrderSync) where
  -- A wait on any place ends in both or in neither.
  abbrev Same : (ℕ → S.Flag) → (ℕ → T.Flag) → Type 0
  Same f g = (j : ℕ) → S.is_set (f j) ≡ T.is_set (g j)

  initial-Same : Same (initial_flags S) (initial_flags T)
  initial-Same j = elim (Bool-cases (j == (history_size - 1))) [
    | inl e ↦ rw e (S.is_set-initial_last ∙ sym T.is_set-initial_last)
    | inr e ↦ rw e (S.is_set-initial ∙ sym T.is_set-initial)
  ]

  flag_call-Same :
      (c : FlagCall) (f : ℕ → S.Flag) (g : ℕ → T.Flag)
      → Same f g
      → Same (flag_call S c f) (flag_call T c g)
  flag_call-Same (set_at i) f g h j =
      is_set-write_set S f i j
      ∙ ap (λ b. if j == i then true else b) (h j)
      ∙ sym (is_set-write_set T g i j)
  flag_call-Same (unset_at i) f g h j =
      is_set-write_unset S f i j
      ∙ ap (λ b. if j == i then false else b) (h j)
      ∙ sym (is_set-write_unset T g i j)

  flag_calls-Same :
      (cs : List FlagCall) (f : ℕ → S.Flag) (g : ℕ → T.Flag)
      → Same f g
      → Same (flag_calls S cs f) (flag_calls T cs g)
  flag_calls-Same [] f g h = h
  flag_calls-Same (c ∷ cs) f g h =
      flag_calls-Same cs (flag_call S c f) (flag_call T c g) (flag_call-Same c f g h)

-- The two versions of sync.h agree: after any sequence of calls, from the flags that
-- initialize_c_style leaves, a wait on a place ends with spin locks exactly when it ends with atomic
-- integers.
pub versions_agree :
    (L : SpinLock) (calls : List FlagCall) (index : ℕ)
    → (spin_sync L).is_set (flag_calls (spin_sync L) calls (initial_flags (spin_sync L)) index)
      ≡ atomic_sync.is_set (flag_calls atomic_sync calls (initial_flags atomic_sync) index)
versions_agree L calls index =
    flag_calls-Same (spin_sync L) atomic_sync calls _ _ (initial-Same (spin_sync L) atomic_sync)
      index
