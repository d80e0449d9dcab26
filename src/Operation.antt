-- ===== src/Operation.antt =====
-- src/peripheral_operation.rs: the state that an in-flight NimBLE procedure shares with the task
-- that awaits it. The task and the C callbacks reach one allocation, so one record holds it.
pub mod Laws
use esp_nimble_host.Prelude.{
  ℕ, ◌-◌, Bool, true, false, Option, none, some, ok, err, Poll, pending, ready, ◌==◌, if◌then◌else◌,
  ℤ, pos, List, [], ◌∷◌,
}
use esp_nimble_host.Error.{NimbleError, NimbleResult, GattError, GattResult}
use esp_nimble_host.Platform.{Platform}
use mathlib.Core.Option

-- What a C callback does: it uses a box that was dropped, or returns a code and a new state.
pub data Outcome (A : Type 0) : Type 0 where
  fault : Outcome A
  returned : ℤ → A → Outcome A

-- `handle.join().await?; next`, on one poll of `join()`.
unfoldable pub awaiting :
    {A : Type 0} → Poll (GattResult (Unit {0})) → GattResult A → Poll (GattResult A)
awaiting pending next = pending
awaiting (ready (ok _)) next = ready next
awaiting (ready (err e)) next = ready (err e)

module _ (P : Platform) where
  open P use {Signal, new_signal, signal, poll_wait}

  -- `PeripheralOperation` with its `PeripheralOperationHandle`. `boxed` says whether the box that
  -- `Box::into_raw` hands to NimBLE has not been dropped, and `context_refs` is the strong count of
  -- the `Arc` of the context.
  pub record Operation (C : Type 0) : Type 0 where
    pub conn_handle : ℕ
    pub finished : Signal (GattResult (Unit {0}))
    pub finished_sent : Bool
    pub context : C
    pub boxed : Bool
    pub context_refs : ℕ

  module _ {C : Type 0} where
    unfoldable pub peripheral_operation : ℕ → C → Operation C
    peripheral_operation conn_handle context = record {
      conn_handle = conn_handle;
      finished = new_signal (GattResult (Unit {0}));
      finished_sent = false;
      context = context;
      boxed = true;
      context_refs = 2;
    }

    -- The second result of one operation is logged and dropped.
    unfoldable pub send_finished : Operation C → GattResult (Unit {0}) → Operation C
    send_finished op result = if op.finished_sent then op else record op {
      finished_sent = true;
      finished = signal (GattResult (Unit {0})) result op.finished;
    }

    -- Dropping the box drops its clone of the context's `Arc`.
    unfoldable pub drop_box : Operation C → Operation C
    drop_box op = record op { boxed = false; context_refs = op.context_refs - 1 }

    -- One poll of `join()`.
    unfoldable pub join : Operation C → Poll (GattResult (Unit {0})) × Operation C
    join op =
        let (result, finished) = poll_wait (GattResult (Unit {0})) op.finished in
        (result, record op { finished = finished })

    -- `Arc::try_unwrap` succeeds on the last reference only.
    unfoldable pub take_context : Operation C → Option C
    take_context op = if op.context_refs == 1 then some op.context else none

  -- What an `async fn` has after it started a procedure: an error at once, when the box is dropped
  -- again, or an operation to await.
  pub data Started (C : Type 0) : Type 0 where
    failed : GattError → Operation C → Started C
    waiting : Operation C → Started C

  module _ {C : Type 0} where
    -- `if let Err(e) = call(.., op_ptr) { drop(Box::from_raw(op_ptr)); return Err(wrap(e)); }`
    unfoldable pub start_operation :
        (NimbleError → GattError) → NimbleResult (Unit {0}) → Operation C → Started C
    unfolding drop_box
    start_operation wrap (ok _) op = waiting op
    start_operation wrap (err e) op = failed (wrap e) (drop_box op)

    -- Every callback reads the box first, and ignores what belongs to another connection.
    unfoldable pub on_own_operation :
        ℕ → Operation C → Outcome (Operation C) → Outcome (Operation C)
    on_own_operation conn_handle op handle =
        if op.boxed
        then (if conn_handle == op.conn_handle then handle else returned (pos 0) op)
        else fault

    -- NimBLE makes calls one after the other. A fault ends the run.
    unfoldable pub deliver :
        {E : Type 0}
        → (E → Operation C → Outcome (Operation C))
        → List E
        → Operation C
        → Option (Operation C)
    deliver callback [] op = some op
    deliver callback (e ∷ es) op = elim (callback e op) [
      | fault ↦ none
      | returned code op' ↦ deliver callback es op'
    ]

    -- The rest of an `async fn`: NimBLE makes `calls`, then the task is polled. `none` is a fault.
    unfoldable pub run_started :
        {A E : Type 0}
        → (Operation C → Poll (GattResult A))
        → (E → Operation C → Outcome (Operation C))
        → List E
        → Started C
        → Option (Poll (GattResult A))
    run_started resume callback calls (failed e op) = some (ready (err e))
    run_started resume callback calls (waiting op) = Option.map resume (deliver callback calls op)
