-- ===== src/Peripheral/Events/References.antt =====
-- What each event does to the strong count of the shared state of src/peripheral.rs.
use esp_nimble_host.Peripheral.Events.Link.{
  success, is_ok-connect_result_of, handle_notify_rx_frame,
}
use esp_nimble_host.Prelude.{ℕ, ◌-◌, ◌≤◌, ◌≡◌, ◌≢◌, arith, ◌==◌, if◌then◌else◌}
use esp_nimble_host.Platform.{Platform}
use esp_nimble_host.Peripheral.{PeripheralInner, drop_arc}
use esp_nimble_host.Peripheral.Events.{
  handle_disconnect, handle_connect, finish_connect, handle_conn_update, handle_mtu,
  handle_enc_change, GapEvent, passkey_action, enc_change, repeat_pairing, connect_event,
  disconnect_event, notify_rx, mtu_event, conn_update, other_event, dispatch,
}

module _ (P : Platform) where
  open P use {bindings}

  -- How many callbacks NimBLE forgets with an event: a connection attempt that failed and a
  -- connection that ended report no more.
  pub forgotten : GapEvent P → ℕ
  forgotten (connect_event status conn_handle) = if status == 0 then 0 else 1
  forgotten (disconnect_event conn_handle reason) = 1
  forgotten (passkey_action conn_handle action) = 0
  forgotten (enc_change status) = 0
  forgotten repeat_pairing = 0
  forgotten (notify_rx om attr_handle) = 0
  forgotten (mtu_event value) = 0
  forgotten (conn_update status) = 0
  forgotten other_event = 0

  -- A CONNECT event does not report `BLE_HS_EDONE`.
  pub IsReported : GapEvent P → Type 0
  IsReported (connect_event status conn_handle) = status ≢ bindings.ble_hs_edone
  IsReported (disconnect_event conn_handle reason) = Unit {0}
  IsReported (passkey_action conn_handle action) = Unit {0}
  IsReported (enc_change status) = Unit {0}
  IsReported repeat_pairing = Unit {0}
  IsReported (notify_rx om attr_handle) = Unit {0}
  IsReported (mtu_event value) = Unit {0}
  IsReported (conn_update status) = Unit {0}
  IsReported other_event = Unit {0}

  handle_connect_strong :
      (status conn_handle : ℕ) (inner : PeripheralInner P)
      → status ≢ bindings.ble_hs_edone
      → (finish_connect P (handle_connect P status conn_handle inner)).strong
        ≡ inner.strong - (if status == 0 then 0 else 1)
  unfolding finish_connect handle_connect drop_arc success
  handle_connect_strong status conn_handle inner r =
      rw (is_ok-connect_result_of P status) (ground arith)

  pub dispatch_strong :
      (e : GapEvent P) (inner : PeripheralInner P)
      → IsReported e
      → (((dispatch P e inner).1).0).strong ≡ inner.strong - forgotten e
  unfolding dispatch IsReported forgotten handle_enc_change handle_mtu handle_conn_update drop_arc
      finish_connect handle_connect handle_disconnect
  dispatch_strong (passkey_action conn_handle action) inner r = omega arith
  dispatch_strong (enc_change status) inner r = omega arith
  dispatch_strong repeat_pairing inner r = omega arith
  dispatch_strong (connect_event status conn_handle) inner r =
      handle_connect_strong status conn_handle inner r
  dispatch_strong (disconnect_event conn_handle reason) inner r = ground arith
  dispatch_strong (notify_rx om attr_handle) inner r =
      rw ((handle_notify_rx_frame P om attr_handle inner).1) (omega arith)
  dispatch_strong (mtu_event value) inner r = omega arith
  dispatch_strong (conn_update status) inner r = omega arith
  dispatch_strong other_event inner r = omega arith

  pub forgotten-le : (e : GapEvent P) → forgotten e ≤ 1
  unfolding forgotten
  forgotten-le (connect_event status conn_handle) = ground arith
  forgotten-le (disconnect_event conn_handle reason) = omega arith
  forgotten-le (passkey_action conn_handle action) = omega arith
  forgotten-le (enc_change status) = omega arith
  forgotten-le repeat_pairing = omega arith
  forgotten-le (notify_rx om attr_handle) = omega arith
  forgotten-le (mtu_event value) = omega arith
  forgotten-le (conn_update status) = omega arith
  forgotten-le other_event = omega arith
