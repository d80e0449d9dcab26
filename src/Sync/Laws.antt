-- ===== src/Sync/Laws.antt =====
-- The wake-up of a task that waits for the sync (src/lib.rs).
use esp_nimble_host.Prelude.{
  ◌≡◌, refl, sym, ap, ◌∙◌, ◌≢◌, ◌⊎◌, inl, inr, Bool, true, false, ◌||◌, arith, ok, err,
  if◌then◌else◌,
}
use esp_nimble_host.Sync.{
  AtomicWaker, WakerLaws, Task, starting, polling, registered, parked, done, Host, resting, waking,
  State, initial, wait_for_sync, poll_register, poll_load, on_sync_store, on_sync_wake, on_reset,
  Step, first_load, registers, loads, polled_again, syncs, wakes, resets, Reachable, started,
  and_then,
}

-- Tests on a task and on the host.
waits : Task → Bool
waits starting = false
waits polling = false
waits registered = true
waits parked = true
waits done = false

is_parked : Task → Bool
is_parked starting = false
is_parked polling = false
is_parked registered = false
is_parked parked = true
is_parked done = false

is_waking : Host → Bool
is_waking resting = false
is_waking waking = true

-- Both loads end with one of two tasks.
waits_if : (b : Bool) → waits (if b then done else polling) ≡ false
unfolding waits
waits_if true = refl
waits_if false = refl

is_parked_if : (b : Bool) → is_parked (if b then done else polling) ≡ false
unfolding is_parked
is_parked_if true = refl
is_parked_if false = refl

loaded : (b : Bool) → (is_parked (if b then done else parked) ≡ false) ⊎ (b ≡ false)
unfolding is_parked
loaded true = inl refl
loaded false = inr refl

waits-is_parked : (t : Task) → waits t ≡ false → is_parked t ≡ false
unfolding waits is_parked
waits-is_parked starting h = refl
waits-is_parked polling h = refl
waits-is_parked registered h = refl
waits-is_parked parked h = h
waits-is_parked done h = refl

true≢false : true ≢ false
true≢false = λ e. ground arith

or-true : (b : Bool) → b || true ≡ true
or-true true = refl
or-true false = refl

module _ (A : AtomicWaker) (W : WakerLaws A) where
  open W use {Armed, register-Armed, wake-Armed}

  -- A task that registered is woken by the next wake, or was woken since.
  pub Watched : State A → Type 0
  Watched s = (waits s.task ≡ false) ⊎ (s.woken ≡ true) ⊎ Armed s.sync_waker

  -- A parked task sees a sync that is through.
  pub Told : State A → Type 0
  Told s =
      (is_parked s.task ≡ false)
      ⊎ (s.host_controller_synced ≡ false)
      ⊎ (is_waking s.host ≡ true)
      ⊎ (s.woken ≡ true)

  Step-Watched : (s t : State A) → Step A s t → Watched s → Watched t
  unfolding Watched waits wait_for_sync poll_register poll_load on_sync_store on_sync_wake on_reset
  Step-Watched _ _ (first_load s e) w = inl (waits_if s.host_controller_synced)
  Step-Watched _ _ (registers s e) w = inr (inr (register-Armed s.sync_waker))
  Step-Watched _ _ (loads s e) w = elim w [
    | inl f ↦ absurd (true≢false (ap waits (sym e) ∙ f))
    | inr f ↦ inr f
  ]
  Step-Watched _ _ (polled_again s e f) w = inl refl
  Step-Watched _ _ (syncs s (ok addr_type) e) w = w
  Step-Watched _ _ (syncs s (err x) e) w = w
  Step-Watched _ _ (wakes s e) w = elim w [
    | inl f ↦ inl f
    | inr (inl f) ↦ inr (inl (rw f refl))
    | inr (inr f) ↦ inr (inl (rw (wake-Armed s.sync_waker f) (or-true s.woken)))
  ]
  Step-Watched _ _ (resets s e) w = w

  Step-Told : (s t : State A) → Step A s t → Watched s → Told s → Told t
  unfolding Watched Told waits is_parked is_waking wait_for_sync poll_register poll_load
      on_sync_store on_sync_wake on_reset
  Step-Told _ _ (first_load s e) w d = inl (is_parked_if s.host_controller_synced)
  Step-Told _ _ (registers s e) w d = inl refl
  Step-Told _ _ (loads s e) w d = elim (loaded s.host_controller_synced) [
    | inl f ↦ inl f
    | inr f ↦ inr (inl f)
  ]
  Step-Told _ _ (polled_again s e f) w d = inl refl
  Step-Told _ _ (syncs s (ok addr_type) e) w d = inr (inr (inl refl))
  Step-Told _ _ (syncs s (err x) e) w d = d
  Step-Told _ _ (wakes s e) w d = elim w [
    | inl f ↦ inl (waits-is_parked s.task f)
    | inr (inl f) ↦ inr (inr (inr (rw f refl)))
    | inr (inr f) ↦ inr (inr (inr (rw (wake-Armed s.sync_waker f) (or-true s.woken))))
  ]
  Step-Told _ _ (resets s e) w d = inr (inl refl)

  Reachable-Told : (s : State A) → Reachable A s → Watched s × Told s
  unfolding Watched Told waits is_parked initial
  Reachable-Told _ started = (inl refl, inl refl)
  Reachable-Told _ (and_then s t r h) =
      let (w, d) = Reachable-Told s r in (Step-Watched s t h w, Step-Told s t h w d)

  -- No wake-up is lost: a task that is parked while the host is synced, and not in the middle of
  -- `on_sync`, was woken, in whatever order the accesses of the two tasks came.
  pub Reachable-woken :
      (s : State A)
      → Reachable A s
      → s.task ≡ parked
      → s.host_controller_synced ≡ true
      → s.host ≡ resting
      → s.woken ≡ true
  unfolding Told is_parked is_waking
  Reachable-woken s r p y h = elim (Reachable-Told s r).1 [
    | inl f ↦ absurd (true≢false (ap is_parked (sym p) ∙ f))
    | inr (inl f) ↦ absurd (true≢false (sym y ∙ f))
    | inr (inr (inl f)) ↦ absurd (true≢false (sym f ∙ ap is_waking h))
    | inr (inr (inr f)) ↦ f
  ]
