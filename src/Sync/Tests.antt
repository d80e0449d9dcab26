-- ===== src/Sync/Tests.antt =====
-- The theorem on the sync of src/lib.rs in a state that a late waiter reaches.
use esp_nimble_host.Prelude.{◌≡◌, refl, Bool, true, false, ok}
use esp_nimble_host.Sync.{
  AtomicWaker, WakerLaws, State, initial, wait_for_sync, poll_register, poll_load, on_sync_store,
  on_sync_wake, first_load, registers, loads, syncs, wakes, Reachable, started, and_then,
}
use esp_nimble_host.Sync.Laws.{Reachable-woken}

-- A cell is whether a waker is registered.
abbrev flag : AtomicWaker
flag = record { Cell = Bool; new_cell = false; register = λ c. true; wake = λ c. (c, false) }

flag-WakerLaws : WakerLaws flag
flag-WakerLaws = record { Armed = λ c. c ≡ true; register-Armed = λ c. refl; wake-Armed = λ c a. a }

-- The task registers and parks, and then the host syncs.
abbrev s0 : State flag
s0 = initial flag

abbrev s1 : State flag
s1 = wait_for_sync flag s0

abbrev s2 : State flag
s2 = poll_register flag s1

abbrev s3 : State flag
s3 = poll_load flag s2

abbrev s4 : State flag
s4 = on_sync_store flag (ok 1) s3

abbrev s5 : State flag
s5 = on_sync_wake flag s4

s5-Reachable : Reachable flag s5
unfolding initial wait_for_sync poll_register poll_load on_sync_store on_sync_wake
s5-Reachable =
    and_then s4 s5
      (and_then s3 s4
        (and_then s2 s3
          (and_then s1 s2 (and_then s0 s1 started (first_load s0 refl)) (registers s1 refl))
          (loads s2 refl))
        (syncs s3 (ok 1) refl))
      (wakes s4 refl)

Reachable-woken_example : s5.woken ≡ true
unfolding initial wait_for_sync poll_register poll_load on_sync_store on_sync_wake
Reachable-woken_example = Reachable-woken flag flag-WakerLaws s5 s5-Reachable refl refl refl
