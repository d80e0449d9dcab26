-- ===== src/Peripheral/Events/Link.antt =====
-- Which connection a peripheral holds, as an abstract state machine that the handlers of
-- `gap_event_handler` refine, and the service cache that belongs to it.
use esp_nimble_host.Host.{ble_hs_mbuf_to_flat}
use esp_nimble_host.Error.{NimbleResult, NimbleError}
use esp_nimble_host.Prelude.{
  ◌⊎◌, ℕ, ◌≡◌, refl, ◌≢◌, inl, inr, Bool, true, false, ◌||◌, Option, List, [], arith, ok, err, ◌==◌,
  if◌then◌else◌, Bool-cases,
}
use esp_nimble_host.Platform.{Platform}
use esp_nimble_host.ReturnCode.{return_code_to_result}
use esp_nimble_host.Peripheral.{PeripheralInner, conn_handle_none, drop_arc}
use esp_nimble_host.Peripheral.Events.{
  notify_flat, handle_conn_update, handle_mtu, handle_notify_rx, handle_enc_change, handle_connect,
  connect_result_of, finish_connect, is_ok, handle_disconnect, GapEvent, passkey_action, enc_change,
  repeat_pairing, connect_event, disconnect_event, notify_rx, mtu_event, conn_update, other_event,
  dispatch,
}

-- No connection, or the handle of the one that is held.
pub data Link : Type 0 where
  down : Link
  up : ℕ → Link

module _ (P : Platform) where
  open P use {bindings, Channel, Mbuf}

  -- A status that NimBLE reports for a connection that was established.
  unfoldable pub success : ℕ → Bool
  success status = status == 0 || status == bindings.ble_hs_edone

  pub established : Link → ℕ → Bool → Link
  established down conn_handle true = up conn_handle
  established down conn_handle false = down
  established (up h) conn_handle b = up h

  pub ended : Link → ℕ → Link
  ended down conn_handle = down
  ended (up h) conn_handle = if h == conn_handle then down else up h

  -- The first connection is kept, and only its own DISCONNECT ends it.
  pub next_link : GapEvent P → Link → Link
  next_link (connect_event status conn_handle) l = established l conn_handle (success status)
  next_link (disconnect_event conn_handle reason) l = ended l conn_handle
  next_link (passkey_action conn_handle action) l = l
  next_link (enc_change status) l = l
  next_link repeat_pairing l = l
  next_link (notify_rx om attr_handle) l = l
  next_link (mtu_event value) l = l
  next_link (conn_update status) l = l
  next_link other_event l = l

  -- NimBLE never gives a connection the handle 0xffff.
  unfoldable pub IsValidEvent : GapEvent P → Type 0
  IsValidEvent (connect_event status conn_handle) = conn_handle ≢ conn_handle_none
  IsValidEvent (disconnect_event conn_handle reason) = Unit {0}
  IsValidEvent (passkey_action conn_handle action) = Unit {0}
  IsValidEvent (enc_change status) = Unit {0}
  IsValidEvent repeat_pairing = Unit {0}
  IsValidEvent (notify_rx om attr_handle) = Unit {0}
  IsValidEvent (mtu_event value) = Unit {0}
  IsValidEvent (conn_update status) = Unit {0}
  IsValidEvent other_event = Unit {0}

  unfoldable pub link_of : PeripheralInner P → Link
  link_of inner = if inner.conn_handle == conn_handle_none then down else up inner.conn_handle

  is_ok-failed : (e : NimbleError) → is_ok (connect_result_of (err e)) ≡ false
  unfolding is_ok connect_result_of
  is_ok-failed NimbleError.timeout = refl
  is_ok-failed e = refl

  pub is_ok-connect_result_of :
      (status : ℕ)
      → is_ok (connect_result_of (return_code_to_result bindings status tt)) ≡ success status
  unfolding return_code_to_result success is_ok connect_result_of
  is_ok-connect_result_of status = elim (Bool-cases (success status)) [
    | inl e ↦ rw e refl
    | inr e ↦ rw (e, is_ok-failed) refl
  ]

  pub handle_connect-link :
      (status conn_handle : ℕ) (inner : PeripheralInner P)
      → conn_handle ≢ conn_handle_none
      → link_of (finish_connect P (handle_connect P status conn_handle inner))
        ≡ established (link_of inner) conn_handle (success status)
  unfolding handle_connect finish_connect drop_arc link_of established
  handle_connect-link status conn_handle inner valid = elim (Bool-cases (success status)) [
    | inl e ↦ rw (is_ok-connect_result_of, e) (ground arith)
    | inr e ↦ rw (is_ok-connect_result_of, e) (ground arith)
  ]

  pub handle_disconnect-link :
      (conn_handle reason : ℕ) (inner : PeripheralInner P)
      → link_of (handle_disconnect P conn_handle reason inner) ≡ ended (link_of inner) conn_handle
  unfolding handle_disconnect link_of ended
  handle_disconnect-link conn_handle reason inner = ground arith

  -- A successful CONNECT of a peripheral without a connection.
  pub dispatch-connect_event :
      (conn_handle : ℕ) (inner : PeripheralInner P)
      → inner.conn_handle ≡ conn_handle_none
      → ((dispatch P (connect_event 0 conn_handle) inner).1).0.conn_handle ≡ conn_handle
  unfolding dispatch handle_connect finish_connect success
  dispatch-connect_event conn_handle inner h = rw (is_ok-connect_result_of) (ground (arith, h))

  notify_flat_frame :
      (r : NimbleResult (List ℕ)) (attr_handle : ℕ) (inner : PeripheralInner P)
      → (c : Channel (ℕ × List ℕ)) × (notify_flat P r attr_handle inner
          ≡ record inner { subscription_pub = c })
  unfolding notify_flat
  notify_flat_frame (ok payload) attr_handle inner = (_, refl)
  notify_flat_frame (err e) attr_handle inner = (_, refl)

  pub handle_notify_rx_frame :
      (om : Option Mbuf) (attr_handle : ℕ) (inner : PeripheralInner P)
      → (c : Channel (ℕ × List ℕ)) × (handle_notify_rx P om attr_handle inner
          ≡ record inner { subscription_pub = c })
  unfolding handle_notify_rx
  handle_notify_rx_frame om attr_handle inner =
      notify_flat_frame (ble_hs_mbuf_to_flat P om) attr_handle inner

  -- The handlers move the peripheral's connection as the state machine says: a successful CONNECT
  -- takes a connection when none is held, a DISCONNECT ends it when the handles agree, and no
  -- other event touches it. NimBLE gives no connection the handle 0xffff.
  pub dispatch-next_link :
      (e : GapEvent P) (inner : PeripheralInner P)
      → IsValidEvent e
      → link_of ((dispatch P e inner).1).0 ≡ next_link e (link_of inner)
  unfolding dispatch next_link handle_enc_change handle_mtu handle_conn_update drop_arc link_of
      IsValidEvent
  dispatch-next_link (passkey_action conn_handle action) inner valid = refl
  dispatch-next_link (enc_change status) inner valid = refl
  dispatch-next_link repeat_pairing inner valid = refl
  dispatch-next_link (connect_event status conn_handle) inner valid =
      handle_connect-link status conn_handle inner valid
  dispatch-next_link (disconnect_event conn_handle reason) inner valid =
      handle_disconnect-link conn_handle reason inner
  dispatch-next_link (notify_rx om attr_handle) inner valid =
      rw ((handle_notify_rx_frame om attr_handle inner).1) refl
  dispatch-next_link (mtu_event value) inner valid = refl
  dispatch-next_link (conn_update status) inner valid = refl
  dispatch-next_link other_event inner valid = refl

  -- The cache belongs to the connection: without one it is empty.
  unfoldable pub HasOwnCache : PeripheralInner P → Type 0
  HasOwnCache inner = (inner.conn_handle ≢ conn_handle_none) ⊎ (inner.services ≡ [])

  -- No event leaves services in the cache of a peripheral without a connection, if none were there
  -- before.
  pub dispatch-HasOwnCache :
      (e : GapEvent P) (inner : PeripheralInner P)
      → HasOwnCache inner
      → HasOwnCache ((dispatch P e inner).1).0
  unfolding HasOwnCache dispatch handle_enc_change handle_mtu handle_conn_update drop_arc
      finish_connect handle_connect handle_disconnect
  dispatch-HasOwnCache (passkey_action conn_handle action) inner h = h
  dispatch-HasOwnCache (enc_change status) inner h = h
  dispatch-HasOwnCache repeat_pairing inner h = h
  dispatch-HasOwnCache (connect_event status conn_handle) inner h =
      elim (Bool-cases (is_ok (connect_result_of (return_code_to_result bindings status tt)))) [
        | inl e ↦ rw e (ground arith)
        | inr e ↦ rw e h
      ]
  dispatch-HasOwnCache (disconnect_event conn_handle reason) inner h = ground arith
  dispatch-HasOwnCache (notify_rx om attr_handle) inner h =
      rw ((handle_notify_rx_frame om attr_handle inner).1) h
  dispatch-HasOwnCache (mtu_event value) inner h = h
  dispatch-HasOwnCache (conn_update status) inner h = h
  dispatch-HasOwnCache other_event inner h = h
