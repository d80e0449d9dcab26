-- ===== src/Peripheral/Gatt/Laws.antt =====
-- What the MTU exchange and the discoveries return, and what a discovery does to the cache.
use esp_nimble_host.ReturnCode.Laws.{map_err-return_code_to_result}
use esp_nimble_host.Peripheral.Connect.{or_disconnected}
use esp_nimble_host.Prelude.{
  ℕ, ◌≡◌, refl, ap, ◌∙◌, ◌≢◌, inl, inr, false, ◌||◌, Option, none, some, List, [], ◌∷◌, ◌++◌, ok,
  err, pending, ready, pos, ◌==◌, if◌then◌else◌, All, Bool-cases, ne→==,
}
use esp_nimble_host.Error.{GattError, GattResult}
use esp_nimble_host.Platform.{Platform, SignalLaws, SelectLaws, WaitResult}
use esp_nimble_host.ReturnCode.{error_of_code}
use esp_nimble_host.Operation.{awaiting, Operation, peripheral_operation, returned, deliver}
use esp_nimble_host.Operation.Laws.{
  finished_with, deliver_step, deliver_ignored, join-finished_with, take_context-finished_with,
  on_own_operation_own, on_own_operation_foreign, run_started_accepted,
}
use esp_nimble_host.Service.{Service}
use esp_nimble_host.Peripheral.{PeripheralInner, conn_handle_none, is_connected}
use esp_nimble_host.Peripheral.Gatt.{
  store_all, exchanged, discovery_select, MtuCall, exchange_mtu, exchange_mtu_callback,
  exchange_mtu_resume, on_mtu_call, exchange_mtu_start, discover_all_services_poll,
}

module _ (P : Platform) where
  open P use {bindings, Subscriber, poll_message}

  pub mtu_result : ℕ → ℕ → GattResult ℕ
  mtu_result status mtu =
      if (status == 0) || (status == bindings.ble_hs_edone)
      then ok mtu
      else err (GattError.mtu_exchange_failed (error_of_code bindings status))

  pub done : GattResult (List (Service P)) → GattResult (Unit {0})
  done (ok found) = ok tt
  done (err e) = err e

  pub stored : GattResult (List (Service P)) → List (Service P) → List (Service P)
  stored (ok found) cached = found
  stored (err e) cached = cached

  abbrev start : ℕ → Operation P ℕ
  start conn_handle = peripheral_operation P conn_handle 0

  abbrev own : ℕ → ℕ → ℕ → MtuCall P
  own conn_handle status mtu = record { conn_handle = conn_handle; error = some status; mtu = mtu }

  -- A call for another connection.
  abbrev pub ForeignCall : ℕ → MtuCall P → Type 0
  ForeignCall conn_handle c = (c.error ≢ none) × (c.conn_handle ≢ conn_handle)

  callback_foreign :
      (conn_handle caller mtu : ℕ) (error : Option ℕ)
      → error ≢ none
      → caller ≢ conn_handle
      → exchange_mtu_callback P caller error mtu false (start conn_handle)
        ≡ returned (pos 0) (start conn_handle)
  unfolding exchange_mtu_callback peripheral_operation
  callback_foreign conn_handle caller mtu none h f = absurd (h refl)
  callback_foreign conn_handle caller mtu (some status) h f =
      on_own_operation_foreign P caller (start conn_handle) _ refl f

  callback_own :
      (conn_handle status mtu : ℕ)
      → (op : Operation P ℕ) × (exchange_mtu_callback P conn_handle
            (some status)
            mtu
            false
            (start conn_handle)
          ≡ returned (pos status) op)
        × ((laws : SignalLaws P) → exchange_mtu_resume P op ≡ ready (mtu_result status mtu))
  unfolding exchange_mtu_callback exchanged mtu_result peripheral_operation exchange_mtu_resume
      finished_with awaiting
  callback_own conn_handle status mtu =
      elim (Bool-cases ((status == 0) || (status == bindings.ble_hs_edone))) [
        | inl e ↦ (
          finished_with P conn_handle mtu (ok tt),
          on_own_operation_own P conn_handle (start conn_handle) _ refl refl
              ∙ rw
                  (
                    map_err-return_code_to_result bindings status tt
                        (λ e. GattError.mtu_exchange_failed e),
                    e,
                  )
                  refl,
          λ laws.
              rw
                (
                  join-finished_with P laws conn_handle mtu (ok tt),
                  take_context-finished_with P conn_handle mtu (ok tt),
                  e,
                )
                refl,
        )
        | inr e ↦ (
          finished_with P conn_handle 0
              (err (GattError.mtu_exchange_failed (error_of_code bindings status))),
          on_own_operation_own P conn_handle (start conn_handle) _ refl refl
              ∙ rw
                  (
                    map_err-return_code_to_result bindings status tt
                        (λ e. GattError.mtu_exchange_failed e),
                    e,
                  )
                  refl,
          λ laws.
              rw
                (
                  join-finished_with P {C = ℕ} laws conn_handle 0
                      (err (GattError.mtu_exchange_failed (error_of_code bindings status))),
                  e,
                )
                refl,
        )
      ]

  -- When NimBLE accepts the request on a connection, and among calls for other connections makes
  -- one call for this one, `exchange_mtu` is ready with the MTU, or with the error of that call.
  pub exchange_mtu-result :
      (laws : SignalLaws P) (inner : PeripheralInner P) (status mtu : ℕ) (before : List (MtuCall P))
      → inner.conn_handle ≢ conn_handle_none
      → All (ForeignCall inner.conn_handle) before
      → exchange_mtu P inner 0 (before ++ own inner.conn_handle status mtu ∷ [])
        ≡ some (ready (mtu_result status mtu))
  unfolding exchange_mtu deliver is_connected exchange_mtu_start on_mtu_call
  exchange_mtu-result laws inner status mtu before v foreign =
      let (op, e, f) = callback_own inner.conn_handle status mtu in
      rw (ne→== inner.conn_handle conn_handle_none v) (
        run_started_accepted P (exchange_mtu_resume P) (on_mtu_call P) GattError.mtu_exchange_failed
          0 (start inner.conn_handle) (before ++ own inner.conn_handle status mtu ∷ []) op refl
          (deliver_ignored P (on_mtu_call P) (ForeignCall inner.conn_handle)
              (start inner.conn_handle)
              (λ c f.
                (pos 0, callback_foreign inner.conn_handle c.conn_handle c.mtu c.error f.0 f.1))
              before _ foreign
            ∙ deliver_step P (on_mtu_call P) (own inner.conn_handle status mtu) []
                (start inner.conn_handle) op (pos status) e)
        ∙ ap (λ r. some r) (f laws))

  -- A discovery of all services that is done while the connection is up replaces the cache by what
  -- it found, and on an error reports it and keeps the cache.
  pub discover_all_services_poll-stored :
      (laws : SelectLaws P) (found : GattResult (List (Service P))) (sub : Subscriber)
      (inner : PeripheralInner P)
      → (poll_message (Unit {0}) sub inner.disconnect_pub).0 ≡ pending
      → discover_all_services_poll P (ready found) sub inner
        ≡ (ready (done found), record inner { services = stored found inner.services })
  unfolding discover_all_services_poll discovery_select or_disconnected store_all stored done
  discover_all_services_poll-stored laws (ok ss) sub inner p = rw (p, laws.select-first) refl
  discover_all_services_poll-stored laws (err e) sub inner p = rw (p, laws.select-first) refl

  -- A disconnect ends a discovery of all services that is not done: it is reported, and the cache
  -- is as it was.
  pub discover_all_services_poll_disconnected :
      (laws : SelectLaws P) (sub : Subscriber) (inner : PeripheralInner P)
      (r : WaitResult (Unit {0}))
      → (poll_message (Unit {0}) sub inner.disconnect_pub).0 ≡ ready r
      → discover_all_services_poll P pending sub inner
        ≡ (ready (err GattError.disconnected_while_operation), inner)
  unfolding discover_all_services_poll discovery_select or_disconnected store_all
  discover_all_services_poll_disconnected laws sub inner r p = rw (p, laws.select-second) refl
