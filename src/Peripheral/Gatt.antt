-- ===== src/Peripheral/Gatt.antt =====
-- The GATT methods of `Peripheral` in src/peripheral.rs: the MTU exchange, the discovery and its
-- cache, the subscriptions, reads and writes.
pub mod Laws
pub mod Cache
use esp_nimble_host.Prelude.{
  ℕ, Bool, true, false, Option, none, some, List, [], ◌∷◌, ◌++◌, Result, ok, err, map_err, ok_or,
  Poll, pending, ready, pos, if◌then◌else◌,
}
use mathlib.Core.Option
use esp_nimble_host.Characteristic.{Characteristic, Descriptor}
use esp_nimble_host.Characteristic.Read.{ReadCall, read_attribute}
use esp_nimble_host.Characteristic.Write.{WriteCall, WriteStart, returns, write_attribute_start}
use esp_nimble_host.Prelude.{Bool}
use esp_nimble_host.Error.{NimbleError, GattError, GattResult, InternalError}
use esp_nimble_host.Platform.{Platform}
use esp_nimble_host.ReturnCode.{return_code_to_result}
use esp_nimble_host.Operation.{
  Operation, Outcome, Started, peripheral_operation, start_operation, awaiting, join, take_context,
  send_finished, drop_box, on_own_operation, run_started, returned, fault,
}
use esp_nimble_host.Service.{Service}
use esp_nimble_host.Peripheral.{
  PeripheralInner, PeripheralEvent, is_connected, current_handle, clone_arc,
}
use esp_nimble_host.Peripheral.Connect.{Begun, finished, waiting, with_subscriber, or_disconnected}

module _ (P : Platform) where
  open P use {bindings, Subscriber, subscriber, poll_message, select}

  -- The context gets the MTU when the status is a success.
  exchanged : ℕ → Operation P ℕ → GattResult (Unit {0}) → Operation P ℕ
  exchanged mtu op (ok _) = send_finished P (record op { context = mtu }) (ok tt)
  exchanged mtu op (err e) = send_finished P op (err e)

  -- `exchange_mtu_callback`: a null pointer panics. The box is dropped with the callback's frame.
  pub exchange_mtu_callback : ℕ → Option ℕ → ℕ → Bool → Operation P ℕ → Outcome (Operation P ℕ)
  unfolding exchanged
  exchange_mtu_callback conn_handle none mtu arg_is_null op = fault
  exchange_mtu_callback conn_handle (some status) mtu true op = fault
  exchange_mtu_callback conn_handle (some status) mtu false op = on_own_operation P conn_handle op (
      returned (pos status) (
        drop_box P (
          exchanged mtu op
            (map_err GattError.mtu_exchange_failed (return_code_to_result bindings status tt)))))

  -- One call that NimBLE makes.
  pub record MtuCall : Type 0 where
    pub conn_handle : ℕ
    pub error : Option ℕ
    pub mtu : ℕ

  pub on_mtu_call : MtuCall → Operation P ℕ → Outcome (Operation P ℕ)
  unfolding exchange_mtu_callback
  on_mtu_call c = exchange_mtu_callback c.conn_handle c.error c.mtu false

  -- Up to the await; `rc` is what `ble_gattc_exchange_mtu` returned.
  pub exchange_mtu_start : ℕ → ℕ → Started P ℕ
  exchange_mtu_start conn_handle rc =
      start_operation P GattError.mtu_exchange_failed (return_code_to_result bindings rc tt)
        (peripheral_operation P conn_handle 0)

  -- From the await on, on one poll.
  pub exchange_mtu_resume : Operation P ℕ → Poll (GattResult ℕ)
  exchange_mtu_resume op =
      let (result, op') = join P op in
      awaiting result (ok_or GattError.no_data (take_context P op'))

  -- The whole method, where NimBLE makes the calls `calls` before the task is polled.
  pub exchange_mtu : PeripheralInner P → ℕ → List MtuCall → Option (Poll (GattResult ℕ))
  unfolding exchange_mtu_start exchange_mtu_resume on_mtu_call
  exchange_mtu inner rc calls =
      if is_connected P inner
      then run_started P exchange_mtu_resume on_mtu_call calls
          (exchange_mtu_start inner.conn_handle rc)
      else some (ready (err GattError.not_connected))

  -- The start of both discoveries.
  pub discovery_begin : {A : Type 0} → PeripheralInner P → Begun P (GattResult A)
  discovery_begin inner =
      if is_connected P inner
      then with_subscriber P (err GattError.disconnected_while_operation) inner
      else finished (err GattError.not_connected) inner

  -- `select(discovery.run(), disc_sub.next_message())`, given a poll of the discovery.
  pub discovery_select :
      {A : Type 0} → Poll (GattResult A) → Subscriber → PeripheralInner P → Poll (GattResult A)
  discovery_select discovery disc_sub inner =
      or_disconnected P (err GattError.disconnected_while_operation)
        (select _ _ discovery (poll_message (Unit {0}) disc_sub inner.disconnect_pub).0)

  store_all :
      Poll (GattResult (List (Service P)))
      → PeripheralInner P
      → Poll (GattResult (Unit {0})) × PeripheralInner P
  store_all pending inner = (pending, inner)
  store_all (ready (err e)) inner = (ready (err e), inner)
  store_all (ready (ok services)) inner = (ready (ok tt), record inner { services = services })

  -- `discover_all_services` from its await on.
  pub discover_all_services_poll :
      Poll (GattResult (List (Service P)))
      → Subscriber
      → PeripheralInner P
      → Poll (GattResult (Unit {0})) × PeripheralInner P
  unfolding discovery_select store_all
  discover_all_services_poll discovery disc_sub inner =
      store_all (discovery_select discovery disc_sub inner) inner

  store_one :
      Poll (GattResult (Option (Service P)))
      → PeripheralInner P
      → Poll (GattResult (Unit {0})) × PeripheralInner P
  store_one pending inner = (pending, inner)
  store_one (ready (err e)) inner = (ready (err e), inner)
  store_one (ready (ok none)) inner = (ready (ok tt), inner)
  store_one (ready (ok (some service))) inner =
      (ready (ok tt), record inner { services = inner.services ++ service ∷ [] })

  -- `discover_service_by_uuid` from its await on.
  pub discover_service_by_uuid_poll :
      Poll (GattResult (Option (Service P)))
      → Subscriber
      → PeripheralInner P
      → Poll (GattResult (Unit {0})) × PeripheralInner P
  unfolding discovery_select store_one
  discover_service_by_uuid_poll discovery disc_sub inner =
      store_one (discovery_select discovery disc_sub inner) inner

  pub services : PeripheralInner P → List (Service P)
  services inner = inner.services

  -- `subscribe` and `events`: a subscriber holds a strong reference of its own.
  pub subscribe : PeripheralInner P → Result Subscriber InternalError × PeripheralInner P
  subscribe inner = elim (subscriber (ℕ × List ℕ) inner.subscription_pub) [
    | none ↦ (err InternalError.channel_closed, inner)
    | some r ↦ (ok r.0, clone_arc P (record inner { subscription_pub = r.1 }))
  ]

  pub events : PeripheralInner P → Result Subscriber InternalError × PeripheralInner P
  events inner = elim (subscriber PeripheralEvent inner.event_pub) [
    | none ↦ (err InternalError.channel_closed, inner)
    | some r ↦ (ok r.0, clone_arc P (record inner { event_pub = r.1 }))
  ]

  -- `read` and `read_descriptor`; `ble_gattc_read` is the C function, by connection and attribute.
  pub read :
      (ble_gattc_read : ℕ → ℕ → ℕ)
      → Characteristic P
      → List (ReadCall P)
      → PeripheralInner P
      → Option (Poll (GattResult (List ℕ)))
  read ble_gattc_read characteristic calls inner =
      if is_connected P inner
      then read_attribute P inner.conn_handle
          (ble_gattc_read inner.conn_handle characteristic.handle) calls
      else some (ready (err GattError.not_connected))

  pub read_descriptor :
      (ble_gattc_read : ℕ → ℕ → ℕ)
      → Descriptor P
      → List (ReadCall P)
      → PeripheralInner P
      → Option (Poll (GattResult (List ℕ)))
  read_descriptor ble_gattc_read descriptor calls inner =
      if is_connected P inner
      then read_attribute P inner.conn_handle (ble_gattc_read inner.conn_handle descriptor.handle)
          calls
      else some (ready (err GattError.not_connected))

  -- `write` and `write_descriptor` up to their await; `mtu` is what `ble_att_mtu` returns.
  pub write :
      (reply : WriteCall P.Mbuf → ℕ)
      → Characteristic P
      → List ℕ
      → Bool
      → ℕ
      → PeripheralInner P
      → WriteStart P
  write reply characteristic bytes response mtu inner =
      if is_connected P inner
      then write_attribute_start P reply inner.conn_handle characteristic.handle bytes response mtu
      else returns [] (err GattError.not_connected)

  pub write_descriptor :
      (reply : WriteCall P.Mbuf → ℕ)
      → Descriptor P
      → List ℕ
      → Bool
      → ℕ
      → PeripheralInner P
      → WriteStart P
  write_descriptor reply descriptor bytes response mtu inner =
      if is_connected P inner
      then write_attribute_start P reply inner.conn_handle descriptor.handle bytes response mtu
      else returns [] (err GattError.not_connected)
