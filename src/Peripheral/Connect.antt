-- ===== src/Peripheral/Connect.antt =====
-- `connect`, `disconnect` and `pair_with_passkey` of src/peripheral.rs. Each is the part up to its
-- last await and one poll of that await; NimBLE reports events in between.
pub mod Result
pub mod Laws
pub mod Ending
pub mod Pairing
pub mod Frame
pub mod Passkey
pub mod References
pub mod Counts
pub mod Keeps
use esp_nimble_host.Prelude.{
  ℕ, ◌⊎◌, inl, inr, Option, none, some, List, ok, err, Poll, pending, ready, if◌then◌else◌,
}
use esp_nimble_host.Error.{
  NimbleResult, NimbleError, ConnectError, PairError, ConnectResult, PairResult,
}
use esp_nimble_host.Platform.{Platform}
use esp_nimble_host.ReturnCode.{return_code_to_result}
use esp_nimble_host.Peripheral.{is_connected, PeripheralInner, current_handle, clone_arc, drop_arc}
use esp_nimble_host.Peripheral.Events.{GapEvent, deliver_events}

module _ (P : Platform) where
  open P use {bindings, Channel, Subscriber, reset, subscriber, poll_wait, poll_message, select}

  -- An `async fn` up to its last await: it returned, or waits with a subscriber.
  pub data Begun (A : Type 0) : Type 0 where
    finished : A → PeripheralInner P → Begun A
    waiting : Subscriber → PeripheralInner P → Begun A

  -- The state that it leaves behind.
  unfoldable pub begun_inner : {A : Type 0} → Begun A → PeripheralInner P
  begun_inner (finished r inner) = inner
  begun_inner (waiting sub inner) = inner

  -- `let mut disc_sub = disconnect_pub.subscriber().map_err(|_| refused)?`, and then the await.
  pub subscribed :
      {A : Type 0} → A → PeripheralInner P → Option (Subscriber × Channel (Unit {0})) → Begun A
  subscribed refused inner none = finished refused inner
  subscribed refused inner (some (disc_sub, channel)) =
      waiting disc_sub (record inner { disconnect_pub = channel })

  pub with_subscriber : {A : Type 0} → A → PeripheralInner P → Begun A
  unfolding subscribed
  with_subscriber refused inner =
      subscribed refused inner (subscriber (Unit {0}) inner.disconnect_pub)

  -- `match select(first, disc_sub.next_message()).await`: a message or a lag is a disconnect.
  unfoldable pub or_disconnected : {A T : Type 0} → A → Poll (A ⊎ T) → Poll A
  or_disconnected aborted pending = pending
  or_disconnected aborted (ready (inl result)) = ready result
  or_disconnected aborted (ready (inr _)) = ready aborted

  -- With the reference that was handed to NimBLE: an error takes it back.
  pub connect_armed : PeripheralInner P → NimbleResult (Unit {0}) → Begun (ConnectResult (Unit {0}))
  unfolding with_subscriber
  connect_armed armed (err e) =
      finished (err (ConnectError.gap_connect_failed e)) (drop_arc P armed)
  connect_armed armed (ok _) = with_subscriber (err ConnectError.disconnected_while_operation) armed

  -- Under the connect lock; `rc` is what `ble_gap_connect` returned.
  pub connect_begin : ℕ → PeripheralInner P → Begun (ConnectResult (Unit {0}))
  unfolding connect_armed clone_arc
  connect_begin rc inner =
      connect_armed
        (clone_arc P
          (record inner { connect_result = reset (ConnectResult (Unit {0})) inner.connect_result }))
        (return_code_to_result bindings rc tt)

  pub connect_poll : Subscriber → PeripheralInner P → Poll (ConnectResult (Unit {0}))
  connect_poll disc_sub inner = or_disconnected (err ConnectError.disconnected_while_operation) (
      select _ _ (poll_wait (ConnectResult (Unit {0})) inner.connect_result).0
        (poll_message (Unit {0}) disc_sub inner.disconnect_pub).0)

  disconnect_subscribed :
      NimbleResult (Unit {0}) → Begun (ConnectResult (Unit {0})) → Begun (ConnectResult (Unit {0}))
  disconnect_subscribed terminated (finished r inner) = finished r inner
  disconnect_subscribed (err e) (waiting disc_sub inner) =
      finished (err (ConnectError.disconnect_failed e)) inner
  disconnect_subscribed (ok _) (waiting disc_sub inner) = waiting disc_sub inner

  -- `disconnect`; `rc` is what `ble_gap_terminate` returns.
  pub disconnect_begin : ℕ → PeripheralInner P → Begun (ConnectResult (Unit {0}))
  unfolding disconnect_subscribed is_connected
  disconnect_begin rc inner =
      if is_connected P inner
      then disconnect_subscribed (return_code_to_result bindings rc tt)
          (with_subscriber (err ConnectError.disconnected_while_operation) inner)
      else finished (ok tt) inner

  pub disconnect_polled : {T : Type 0} → Poll T → Poll (ConnectResult (Unit {0}))
  disconnect_polled pending = pending
  disconnect_polled (ready _) = ready (ok tt)

  pub disconnect_poll : Subscriber → PeripheralInner P → Poll (ConnectResult (Unit {0}))
  unfolding disconnect_polled
  disconnect_poll disc_sub inner =
      disconnect_polled (poll_message (Unit {0}) disc_sub inner.disconnect_pub).0

  pub pair_initiated : PeripheralInner P → NimbleResult (Unit {0}) → Begun (PairResult (Unit {0}))
  unfolding with_subscriber
  pair_initiated stored (err e) = finished (err (PairError.initiate_failed e)) stored
  pair_initiated stored (ok _) = with_subscriber (err PairError.disconnected_while_operation) stored

  -- `pair_with_passkey`; `rc` is what `ble_gap_security_initiate` returns.
  pub pair_begin : ℕ → ℕ → PeripheralInner P → Begun (PairResult (Unit {0}))
  unfolding pair_initiated
  pair_begin passkey rc inner =
      if is_connected P inner
      then pair_initiated
          (record inner {
            static_passkey = passkey;
            pair_result = reset (PairResult (Unit {0})) inner.pair_result;
          })
          (return_code_to_result bindings rc tt)
      else finished (err PairError.not_connected) inner

  pub pair_poll : Subscriber → PeripheralInner P → Poll (PairResult (Unit {0}))
  pair_poll disc_sub inner = or_disconnected (err PairError.disconnected_while_operation) (
      select _ _ (poll_wait (PairResult (Unit {0})) inner.pair_result).0
        (poll_message (Unit {0}) disc_sub inner.disconnect_pub).0)

  -- A call that began, the events until the task is polled, and that poll. `none` is a fault.
  pub run_begun :
      {A : Type 0}
      → (Subscriber → PeripheralInner P → Poll A)
      → List (GapEvent P)
      → Begun A
      → Option (Poll A × PeripheralInner P)
  run_begun poll events (finished r inner) = some (ready r, inner)
  run_begun poll events (waiting disc_sub inner) = elim (deliver_events P events inner) [
    | none ↦ none
    | some inner' ↦ some (poll disc_sub inner', inner')
  ]
