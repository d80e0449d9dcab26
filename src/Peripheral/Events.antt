-- ===== src/Peripheral/Events.antt =====
-- `Peripheral::gap_event_handler` of src/peripheral.rs and the handlers of the single events.
pub mod Notify
pub mod Link
pub mod References
mod Tests
use esp_nimble_host.Prelude.{
  ℕ, Bool, true, false, ◌&&◌, ◌||◌, Option, none, some, List, [], ◌∷◌, Result, ok, err, ℤ, pos,
  ◌==◌, if◌then◌else◌,
}
use esp_nimble_host.Error.{
  NimbleError, NimbleResult, ConnectError, PairError, ConnectResult, PairResult,
}
use esp_nimble_host.Platform.{Platform}
use esp_nimble_host.ReturnCode.{return_code_to_result}
use esp_nimble_host.Operation.{Outcome, fault, returned}
use esp_nimble_host.Host.{ble_hs_mbuf_to_flat}
use esp_nimble_host.Peripheral.{
  PeripheralEvent, mtu_changed, conn_params_updated, disconnected, PeripheralInner,
  conn_handle_none, drop_arc,
}

-- A call of `ble_sm_inject_io`, with the `ble_sm_io` that `ble_sm_io_passkey` builds.
pub record InjectedIo : Type 0 where
  pub conn_handle : ℕ
  pub action : ℕ
  pub passkey : ℕ

-- `ConnectError` for a status of a CONNECT event.
unfoldable pub connect_result_of : NimbleResult (Unit {0}) → ConnectResult (Unit {0})
connect_result_of (ok _) = ok tt
connect_result_of (err NimbleError.timeout) = err ConnectError.timeout
connect_result_of (err e) = err (ConnectError.gap_connect_failed e)

unfoldable pub enc_result : ℕ → PairResult (Unit {0})
enc_result status = if status == 0 then ok tt else err (PairError.pairing_failed status)

pub is_ok : {A E : Type 0} → Result A E → Bool
is_ok (ok _) = true
is_ok (err _) = false

module _ (P : Platform) where
  open P use {bindings, Mbuf, Channel, publisher, publish_immediate, drop_publisher, signal}

  -- `ble_gap_event`, with the fields that the handlers read. Each `status` and `reason` is the one
  -- that `as u32` gives.
  pub data GapEvent : Type 0 where
    passkey_action : (conn_handle action : ℕ) → GapEvent
    enc_change : (status : ℕ) → GapEvent
    repeat_pairing : GapEvent
    connect_event : (status conn_handle : ℕ) → GapEvent
    disconnect_event : (conn_handle reason : ℕ) → GapEvent
    notify_rx : (om : Option Mbuf) (attr_handle : ℕ) → GapEvent
    mtu_event : (value : ℕ) → GapEvent
    conn_update : (status : ℕ) → GapEvent
    other_event : GapEvent

  -- `if let Ok(p) = channel.publisher() { p.publish_immediate(v) }`, with the drop of `p`.
  unfoldable pub publish : {T : Type 0} → T → Channel T → Channel T
  publish {T} v c = elim (publisher T c) [
    | none ↦ c
    | some c' ↦ drop_publisher T (publish_immediate T v c')
  ]

  unfoldable pub handle_connect : ℕ → ℕ → PeripheralInner P → Bool × PeripheralInner P
  handle_connect status conn_handle inner =
      let result = connect_result_of (return_code_to_result bindings status tt) in
      let connected =
        (if is_ok result && inner.conn_handle == conn_handle_none
          then record inner { conn_handle = conn_handle }
          else inner) in
      (
        is_ok result,
        record connected {
          connect_result = signal (ConnectResult (Unit {0})) result connected.connect_result;
        },
      )

  unfoldable pub handle_disconnect : ℕ → ℕ → PeripheralInner P → PeripheralInner P
  handle_disconnect conn_handle reason inner =
      if inner.conn_handle == conn_handle_none
      then inner
      else if inner.conn_handle == conn_handle
      then record inner {
        conn_handle = conn_handle_none;
        services = [];
        disconnect_pub = publish tt inner.disconnect_pub;
        event_pub = publish (disconnected reason) inner.event_pub;
      }
      else inner

  unfoldable pub handle_mtu : ℕ → PeripheralInner P → PeripheralInner P
  handle_mtu value inner = record inner { event_pub = publish (mtu_changed value) inner.event_pub }

  unfoldable pub handle_conn_update : ℕ → PeripheralInner P → PeripheralInner P
  handle_conn_update status inner = record inner {
    event_pub = publish (conn_params_updated status) inner.event_pub;
  }

  -- The calls of `ble_sm_inject_io`. What they return is logged only.
  unfoldable pub handle_passkey_action : ℕ → ℕ → PeripheralInner P → List InjectedIo
  handle_passkey_action conn_handle action inner =
      if action == bindings.ble_sm_ioact_input || action == bindings.ble_sm_ioact_disp
      then record { conn_handle = conn_handle; action = action; passkey = inner.static_passkey }
        ∷ []
      else []

  unfoldable pub handle_enc_change : ℕ → PeripheralInner P → PeripheralInner P
  handle_enc_change status inner = record inner {
    pair_result = signal (PairResult (Unit {0})) (enc_result status) inner.pair_result;
  }

  pub notify_flat : NimbleResult (List ℕ) → ℕ → PeripheralInner P → PeripheralInner P
  unfolding publish
  notify_flat (err e) attr_handle inner = inner
  notify_flat (ok payload) attr_handle inner = record inner {
    subscription_pub = publish (attr_handle, payload) inner.subscription_pub;
  }

  pub handle_notify_rx : Option Mbuf → ℕ → PeripheralInner P → PeripheralInner P
  unfolding notify_flat
  handle_notify_rx om attr_handle inner = notify_flat (ble_hs_mbuf_to_flat P om) attr_handle inner

  -- A CONNECT that failed is terminal: the reference of the callback is dropped.
  unfoldable pub finish_connect : Bool × PeripheralInner P → PeripheralInner P
  finish_connect (established, inner) = if established then inner else drop_arc P inner

  -- The arms of the `match`: the code returned, the state and the calls of `ble_sm_inject_io`.
  unfoldable pub dispatch : GapEvent → PeripheralInner P → ℤ × (PeripheralInner P × List InjectedIo)
  dispatch (passkey_action conn_handle action) inner =
      (pos 0, (inner, handle_passkey_action conn_handle action inner))
  dispatch (enc_change status) inner = (pos 0, (handle_enc_change status inner, []))
  dispatch repeat_pairing inner = (pos bindings.ble_gap_repeat_pairing_ignore, (inner, []))
  dispatch (connect_event status conn_handle) inner =
      (pos 0, (finish_connect (handle_connect status conn_handle inner), []))
  dispatch (disconnect_event conn_handle reason) inner =
      (pos 0, (drop_arc P (handle_disconnect conn_handle reason inner), []))
  dispatch (notify_rx om attr_handle) inner = (pos 0, (handle_notify_rx om attr_handle inner, []))
  dispatch (mtu_event value) inner = (pos 0, (handle_mtu value inner, []))
  dispatch (conn_update status) inner = (pos 0, (handle_conn_update status inner, []))
  dispatch other_event inner = (pos 0, (inner, []))

  -- A null pointer panics, and `param` must not point to memory that was freed.
  unfoldable pub gap_event_handler :
      Option GapEvent → Option (PeripheralInner P) → Outcome (PeripheralInner P × List InjectedIo)
  gap_event_handler none param = fault
  gap_event_handler (some event) none = fault
  gap_event_handler (some event) (some inner) =
      if inner.strong == 0
      then fault
      else (let (code, result) = dispatch event inner in returned code result)

  -- NimBLE reports the events one after the other.
  unfoldable pub deliver_events : List GapEvent → PeripheralInner P → Option (PeripheralInner P)
  deliver_events [] inner = some inner
  deliver_events (e ∷ es) inner = elim (gap_event_handler (some e) (some inner)) [
    | fault ↦ none
    | returned code result ↦ deliver_events es result.0
  ]
