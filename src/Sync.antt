-- ===== src/Sync.antt =====
-- `wait_for_sync`, `SyncFuture`, `on_sync` and `on_reset` of src/lib.rs, one access of an atomic or
-- of the waker at a time.
pub mod Laws
mod Start
mod Tests
use esp_nimble_host.Prelude.{ℕ, ◌≡◌, Bool, true, false, ◌||◌, ok, err, if◌then◌else◌}
use esp_nimble_host.Error.{NimbleResult}

-- embassy-sync's `AtomicWaker` as its task sees it. `wake` says whether it woke a waker.
pub record AtomicWaker : Type 1 where
  pub Cell : Type 0
  pub new_cell : Cell
  pub register : Cell → Cell
  pub wake : Cell → Bool × Cell

-- A waker that was registered is woken by the next `wake`.
pub record WakerLaws (A : AtomicWaker) : Type 1 where
  pub Armed : A.Cell → Type 0
  pub register-Armed : (c : A.Cell) → Armed (A.register c)
  pub wake-Armed : (c : A.Cell) → Armed c → (A.wake c).0 ≡ true

-- Where the task is in `wait_for_sync`: at its first load, at the start of `SyncFuture::poll`,
-- between that method's two accesses, waiting, or through.
pub data Task : Type 0 where
  starting polling registered parked done : Task

-- Whether the host task is between the store and the wake of `on_sync`.
pub data Host : Type 0 where
  resting waking : Host

module _ (A : AtomicWaker) where
  open A use {Cell, new_cell, register, wake}

  -- The statics, the two tasks, and whether the waiting task was woken.
  pub record State : Type 0 where
    pub host_controller_synced : Bool
    pub own_addr_type : ℕ
    pub sync_waker : Cell
    pub host : Host
    pub task : Task
    pub woken : Bool

  pub initial : State
  initial = record {
    host_controller_synced = false;
    own_addr_type = 0;
    sync_waker = new_cell;
    host = resting;
    task = starting;
    woken = false;
  }

  -- The load of `wait_for_sync`.
  pub wait_for_sync : State → State
  wait_for_sync s = record s { task = if s.host_controller_synced then done else polling }

  -- `SYNC_WAKER.register(cx.waker())`.
  pub poll_register : State → State
  poll_register s = record s { sync_waker = register s.sync_waker; task = registered }

  -- The load of `SyncFuture::poll`.
  pub poll_load : State → State
  poll_load s = record s { task = if s.host_controller_synced then done else parked }

  -- `on_sync` up to the store; an address type that cannot be inferred ends it.
  pub on_sync_store : NimbleResult ℕ → State → State
  on_sync_store (err e) s = s
  on_sync_store (ok addr_type) s = record s {
    own_addr_type = addr_type;
    host_controller_synced = true;
    host = waking;
  }

  -- `SYNC_WAKER.wake()`.
  pub on_sync_wake : State → State
  on_sync_wake s =
      let (fired, cell) = wake s.sync_waker in
      record s { sync_waker = cell; host = resting; woken = s.woken || fired }

  pub on_reset : State → State
  on_reset s = record s { host_controller_synced = false }

  -- What may happen next. The host task makes its calls one after the other, and the executor polls
  -- a task that was woken.
  pub data Step : State → State → Type 0 where
    first_load : (s : State) → s.task ≡ starting → Step s (wait_for_sync s)
    registers : (s : State) → s.task ≡ polling → Step s (poll_register s)
    loads : (s : State) → s.task ≡ registered → Step s (poll_load s)
    polled_again :
        (s : State)
        → s.task ≡ parked
        → s.woken ≡ true
        → Step s (record s { task = polling; woken = false })
    syncs :
        (s : State) (addr_type : NimbleResult ℕ)
        → s.host ≡ resting
        → Step s (on_sync_store addr_type s)
    wakes : (s : State) → s.host ≡ waking → Step s (on_sync_wake s)
    resets : (s : State) → s.host ≡ resting → Step s (on_reset s)

  pub data Reachable : State → Type 0 where
    started : Reachable initial
    and_then : (s t : State) → Reachable s → Step s t → Reachable t
