-- ===== src/Peripheral/Gatt/Cache.antt =====
-- The service cache of src/peripheral.rs over the life of a peripheral: its GAP events, the methods
-- that begin, and the discoveries that fill the cache on one of their polls.
use esp_nimble_host.Prelude.{
  ℕ, ◌≡◌, refl, ◌≢◌, ◌⊎◌, inl, inr, Option, none, some, List, ok, err, Poll, pending, ready,
  Bool-cases,
}
use esp_nimble_host.Error.{GattResult, GattError}
use esp_nimble_host.Platform.{Platform, SelectLaws, WaitResult}
use esp_nimble_host.Data.Address.{BleAddr}
use esp_nimble_host.Service.{Service}
use esp_nimble_host.Peripheral.{PeripheralInner, new_peripheral, conn_handle_none, is_connected}
use esp_nimble_host.Peripheral.Events.{GapEvent, dispatch}
use esp_nimble_host.Peripheral.Events.Link.{HasOwnCache, dispatch-HasOwnCache}
use esp_nimble_host.Peripheral.Connect.{
  begun_inner, or_disconnected, connect_begin, disconnect_begin, pair_begin,
}
use esp_nimble_host.Peripheral.Gatt.{
  discovery_begin, discovery_select, store_all, store_one, discover_all_services_poll,
  discover_service_by_uuid_poll,
}
use esp_nimble_host.Peripheral.Connect.Keeps.{
  Keeps, Keeps-HasOwnCache, with_subscriber-Keeps, connect_begin-Keeps, disconnect_begin-Keeps,
  pair_begin-Keeps,
}

module _ (P : Platform) where
  open P use {Subscriber}

  -- Not a discovery with a result to store, unless the connection is still there.
  unfoldable pub IsTimely : {A : Type 0} → Poll (GattResult A) → PeripheralInner P → Type 0
  IsTimely pending inner = Unit {0}
  IsTimely (ready (err e)) inner = Unit {0}
  IsTimely (ready (ok found)) inner = inner.conn_handle ≢ conn_handle_none

  -- The states of a peripheral, where every discovery is polled in time.
  pub data Life : PeripheralInner P → Type 0 where
    created : (addr : BleAddr) → Life (new_peripheral P addr)
    on_event :
        (e : GapEvent P) (inner : PeripheralInner P) → Life inner → Life ((dispatch P e inner).1).0
    connecting :
        (rc : ℕ) (inner : PeripheralInner P)
        → Life inner
        → Life (begun_inner P (connect_begin P rc inner))
    disconnecting :
        (rc : ℕ) (inner : PeripheralInner P)
        → Life inner
        → Life (begun_inner P (disconnect_begin P rc inner))
    pairing :
        (passkey rc : ℕ) (inner : PeripheralInner P)
        → Life inner
        → Life (begun_inner P (pair_begin P passkey rc inner))
    discovering_all :
        (inner : PeripheralInner P)
        → Life inner
        → Life (begun_inner P (discovery_begin P {A = List (Service P)} inner))
    discovering_one :
        (inner : PeripheralInner P)
        → Life inner
        → Life (begun_inner P (discovery_begin P {A = Option (Service P)} inner))
    polled_all :
        (discovery : Poll (GattResult (List (Service P)))) (sub : Subscriber)
        (inner : PeripheralInner P)
        → IsTimely discovery inner
        → Life inner
        → Life (discover_all_services_poll P discovery sub inner).1
    polled_one :
        (discovery : Poll (GattResult (Option (Service P)))) (sub : Subscriber)
        (inner : PeripheralInner P)
        → IsTimely discovery inner
        → Life inner
        → Life (discover_service_by_uuid_poll P discovery sub inner).1

  discovery_begin-Keeps :
      (A : Type 0) (inner : PeripheralInner P)
      → Keeps P inner (begun_inner P (discovery_begin P {A = A} inner))
  unfolding discovery_begin begun_inner
  discovery_begin-Keeps A inner = elim (Bool-cases (is_connected P inner)) [
    | inl e ↦ rw e (
        with_subscriber-Keeps P {A = GattResult A} (err GattError.disconnected_while_operation)
          inner)
    | inr e ↦ rw e (refl, refl)
  ]

  or_disconnected-pending :
      {A : Type 0} (laws : SelectLaws P) (aborted : A) (p : Poll (WaitResult (Unit {0})))
      → (or_disconnected P aborted (P.select A (WaitResult (Unit {0})) pending p) ≡ pending)
        ⊎ (or_disconnected P aborted (P.select A (WaitResult (Unit {0})) pending p) ≡ ready aborted)
  unfolding or_disconnected
  or_disconnected-pending laws aborted pending = inl (rw laws.select-neither refl)
  or_disconnected-pending laws aborted (ready r) = inr (rw laws.select-second refl)

  or_disconnected-ready :
      {A : Type 0} (laws : SelectLaws P) (aborted result : A) (p : Poll (WaitResult (Unit {0})))
      → (or_disconnected P aborted (P.select A (WaitResult (Unit {0})) (ready result) p)
          ≡ ready result)
        ⊎ (or_disconnected P aborted (P.select A (WaitResult (Unit {0})) (ready result) p)
            ≡ ready aborted)
  unfolding or_disconnected
  or_disconnected-ready laws aborted result pending = inl (rw laws.select-first refl)
  or_disconnected-ready {A} laws aborted result (ready r) =
      elim (laws.select-both A (WaitResult (Unit {0})) result r) [
        | inl e ↦ inl (rw e refl)
        | inr e ↦ inr (rw e refl)
      ]

  store_all-HasOwnCache :
      (r : Poll (GattResult (List (Service P)))) (inner : PeripheralInner P)
      → IsTimely r inner
      → HasOwnCache P inner
      → HasOwnCache P (store_all P r inner).1
  unfolding store_all HasOwnCache IsTimely
  store_all-HasOwnCache pending inner t c = c
  store_all-HasOwnCache (ready (err e)) inner t c = c
  store_all-HasOwnCache (ready (ok found)) inner t c = inl t

  store_one-HasOwnCache :
      (r : Poll (GattResult (Option (Service P)))) (inner : PeripheralInner P)
      → IsTimely r inner
      → HasOwnCache P inner
      → HasOwnCache P (store_one P r inner).1
  unfolding store_one HasOwnCache IsTimely
  store_one-HasOwnCache pending inner t c = c
  store_one-HasOwnCache (ready (err e)) inner t c = c
  store_one-HasOwnCache (ready (ok none)) inner t c = c
  store_one-HasOwnCache (ready (ok (some service))) inner t c = inl t

  -- The disconnect that a poll also looks at makes no result where there was none.
  discovery_select-IsTimely :
      {A : Type 0} (laws : SelectLaws P) (discovery : Poll (GattResult A)) (sub : Subscriber)
      (inner : PeripheralInner P)
      → IsTimely discovery inner
      → IsTimely (discovery_select P discovery sub inner) inner
  unfolding discovery_select IsTimely
  discovery_select-IsTimely {A} laws pending sub inner t =
      elim (or_disconnected-pending {A = GattResult A} laws
        (err GattError.disconnected_while_operation)
        (P.poll_message (Unit {0}) sub inner.disconnect_pub).0) [
          | inl e ↦ rw e tt
          | inr e ↦ rw e tt
        ]
  discovery_select-IsTimely {A} laws (ready result) sub inner t =
      elim (or_disconnected-ready {A = GattResult A} laws
        (err GattError.disconnected_while_operation) result
        (P.poll_message (Unit {0}) sub inner.disconnect_pub).0) [ inl e ↦ rw e t | inr e ↦ rw e tt ]

  -- Over events, method calls and discoveries, a peripheral without a connection has no cached
  -- services, when no discovery that has found something is polled after the connection ended.
  pub Life-HasOwnCache :
      (laws : SelectLaws P) (inner : PeripheralInner P) → Life inner → HasOwnCache P inner
  unfolding HasOwnCache new_peripheral discover_all_services_poll discover_service_by_uuid_poll
  Life-HasOwnCache laws _ (created addr) = inr refl
  Life-HasOwnCache laws _ (on_event e inner l) =
      dispatch-HasOwnCache P e inner (Life-HasOwnCache laws inner l)
  Life-HasOwnCache laws _ (connecting rc inner l) =
      Keeps-HasOwnCache P inner (begun_inner P (connect_begin P rc inner))
        (connect_begin-Keeps P rc inner) (Life-HasOwnCache laws inner l)
  Life-HasOwnCache laws _ (disconnecting rc inner l) =
      Keeps-HasOwnCache P inner (begun_inner P (disconnect_begin P rc inner))
        (disconnect_begin-Keeps P rc inner) (Life-HasOwnCache laws inner l)
  Life-HasOwnCache laws _ (pairing passkey rc inner l) =
      Keeps-HasOwnCache P inner (begun_inner P (pair_begin P passkey rc inner))
        (pair_begin-Keeps P passkey rc inner) (Life-HasOwnCache laws inner l)
  Life-HasOwnCache laws _ (discovering_all inner l) =
      Keeps-HasOwnCache P inner (begun_inner P (discovery_begin P {A = List (Service P)} inner))
        (discovery_begin-Keeps (List (Service P)) inner) (Life-HasOwnCache laws inner l)
  Life-HasOwnCache laws _ (discovering_one inner l) =
      Keeps-HasOwnCache P inner (begun_inner P (discovery_begin P {A = Option (Service P)} inner))
        (discovery_begin-Keeps (Option (Service P)) inner) (Life-HasOwnCache laws inner l)
  Life-HasOwnCache laws _ (polled_all discovery sub inner t l) =
      store_all-HasOwnCache (discovery_select P discovery sub inner) inner
        (discovery_select-IsTimely laws discovery sub inner t) (Life-HasOwnCache laws inner l)
  Life-HasOwnCache laws _ (polled_one discovery sub inner t l) =
      store_one-HasOwnCache (discovery_select P discovery sub inner) inner
        (discovery_select-IsTimely laws discovery sub inner t) (Life-HasOwnCache laws inner l)
