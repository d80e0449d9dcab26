-- ===== src/Discovery/Callbacks.antt =====
-- The three discovery callbacks and the functions that await them. They differ in the item that
-- NimBLE delivers, its conversion, and the errors; all else is shared here.
pub mod Laws
use mathlib.Core.Option
use esp_nimble_host.Prelude.{
  ◌>>=◌, ℕ, Bool, true, false, Option, none, some, List, [], ◌∷◌, ◌++◌, map, Result, ok, err, ok_or,
  Poll, pos, negsuc, ◌==◌, if◌then◌else◌,
}
use esp_nimble_host.Error.{DataError, NimbleError, GattError, GattResult}
use esp_nimble_host.Platform.{Platform}
use esp_nimble_host.Operation.{
  Operation, Outcome, fault, returned, Started, peripheral_operation, start_operation,
  send_finished, drop_box, join, take_context, awaiting, on_own_operation, run_started,
}
use esp_nimble_host.ReturnCode.{return_code_to_result}
use esp_nimble_host.Characteristic.{Descriptor, Characteristic, new_characteristic}
use esp_nimble_host.Service.{Service, new_service}
use esp_nimble_host.Data.Uuid.{UuidAny, nimble_uuid_to_uuid}

-- `ble_gatt_svc`, `ble_gatt_chr` and `ble_gatt_dsc`, as far as they are read.
pub record GattSvc : Type 0 where
  pub start_handle : ℕ
  pub end_handle : ℕ
  pub uuid : UuidAny

pub record GattChr : Type 0 where
  pub def_handle : ℕ
  pub val_handle : ℕ
  pub uuid : UuidAny

pub record GattDsc : Type 0 where
  pub handle : ℕ
  pub uuid : UuidAny

-- One call that NimBLE makes, with the pointers that it was given.
pub record DiscCall (I : Type 0) : Type 0 where
  pub conn_handle : ℕ
  pub error : Option ℕ
  pub item : Option I

-- `Result::unwrap_err`; `none` is the panic.
abbrev pub unwrap_err : {A E : Type 0} → Result A E → Option E
unwrap_err (ok a) = none
unwrap_err (err e) = some e

module _ (P : Platform) where
  open P use {bindings}

  -- `none` is a panic of `unwrap_err`.
  pub disc_terminal_result : ℕ → (NimbleError → GattError) → Option (GattResult (Unit {0}))
  disc_terminal_result status err_map =
      if status == bindings.ble_hs_edone
      then some (ok tt)
      else Option.map (λ e. err (err_map e)) (unwrap_err (return_code_to_result bindings status tt))

  module _ {I X : Type 0} (convert : I → Result X DataError)
      (err_map : NimbleError → GattError) where
    pub accumulate : Result X DataError → Operation P (List X) → Outcome (Operation P (List X))
    accumulate (ok x) op = returned (pos 0) (record op { context = op.context ++ x ∷ [] })
    accumulate (err e) op = returned (negsuc 0) op

    pub on_item : Option I → Operation P (List X) → Outcome (Operation P (List X))
    unfolding accumulate
    on_item none op = returned (negsuc 0) op
    on_item (some item) op = accumulate (convert item) op

    pub on_terminal :
        Option (GattResult (Unit {0})) → Operation P (List X) → Outcome (Operation P (List X))
    on_terminal none op = fault
    on_terminal (some result) op = returned (pos 0) (drop_box P (send_finished P op result))

    pub discovered_cb :
        ℕ → Option ℕ → Option I → Bool → Operation P (List X) → Outcome (Operation P (List X))
    unfolding on_item on_terminal
    discovered_cb conn_handle none item arg_is_null op = returned (negsuc 0) op
    discovered_cb conn_handle (some status) item true op = returned (negsuc 0) op
    discovered_cb conn_handle (some status) item false op = on_own_operation P conn_handle op (
        if status == 0
        then on_item item op
        else on_terminal (disc_terminal_result status err_map) op)

  module _ {I X : Type 0}
      (cb : ℕ
        → Option ℕ
        → Option I
        → Bool
        → Operation P (List X)
        → Outcome (Operation P (List X))) where
    pub on_disc_call : DiscCall I → Operation P (List X) → Outcome (Operation P (List X))
    on_disc_call c = cb c.conn_handle c.error c.item false

  module _ {I X : Type 0}
      (cb : ℕ → Option ℕ → Option I → Bool → Operation P (List X) → Outcome (Operation P (List X)))
      (err_map : NimbleError → GattError) (nothing : GattError) where
    -- Up to the await; `rc` is what the NimBLE function returned.
    pub discover_start : ℕ → ℕ → Started P (List X)
    discover_start conn_handle rc =
        start_operation P err_map (return_code_to_result bindings rc tt)
          (peripheral_operation P conn_handle [])

    -- From the await on, on one poll.
    pub discover_resume : Operation P (List X) → Poll (GattResult (List X))
    discover_resume op =
        let (finished, op') = join P op in awaiting finished (ok_or nothing (take_context P op'))

    -- The whole function, where NimBLE makes the calls `calls` before the task is polled.
    pub discover : ℕ → ℕ → List (DiscCall I) → Option (Poll (GattResult (List X)))
    unfolding discover_start discover_resume on_disc_call
    discover conn_handle rc calls =
        run_started P discover_resume (on_disc_call cb) calls (discover_start conn_handle rc)

  -- The items as the three callbacks convert them.
  pub service_of : GattSvc → Result (Service P) DataError
  service_of svc = do
    uuid ← nimble_uuid_to_uuid P svc.uuid
    ok (new_service P uuid svc.start_handle svc.end_handle)

  pub characteristic_of : GattChr → Result (Characteristic P) DataError
  characteristic_of chr = do
    uuid ← nimble_uuid_to_uuid P chr.uuid
    ok (new_characteristic P uuid chr.val_handle chr.def_handle)

  pub descriptor_of : GattDsc → Result (Descriptor P) DataError
  descriptor_of dsc = do
    uuid ← nimble_uuid_to_uuid P dsc.uuid
    ok (record { uuid = uuid; handle = dsc.handle })

  pub service_discovered_cb :
      ℕ
      → Option ℕ
      → Option GattSvc
      → Bool
      → Operation P (List (Service P))
      → Outcome (Operation P (List (Service P)))
  unfolding discovered_cb service_of
  service_discovered_cb = discovered_cb service_of (λ e. GattError.service_discovery_failed e)

  pub characteristic_disc_cb :
      ℕ
      → Option ℕ
      → Option GattChr
      → Bool
      → Operation P (List (Characteristic P))
      → Outcome (Operation P (List (Characteristic P)))
  unfolding discovered_cb characteristic_of
  characteristic_disc_cb =
      discovered_cb characteristic_of (λ e. GattError.characteristic_discovery_failed e)

  pub characteristic_descriptor_disc_cb :
      ℕ
      → Option ℕ
      → Option GattDsc
      → Bool
      → Operation P (List (Descriptor P))
      → Outcome (Operation P (List (Descriptor P)))
  unfolding discovered_cb descriptor_of
  characteristic_descriptor_disc_cb =
      discovered_cb descriptor_of (λ e. GattError.descriptor_discovery_failed e)

  -- `rc` is what `ble_gattc_disc_all_svcs` returned.
  pub nimble_discover_services :
      ℕ → ℕ → List (DiscCall GattSvc) → Option (Poll (GattResult (List (Service P))))
  unfolding discover service_discovered_cb
  nimble_discover_services =
      discover service_discovered_cb (λ e. GattError.service_discovery_failed e)
        GattError.no_services_discovered

  -- `rc` is what `ble_gattc_disc_svc_by_uuid` returned.
  pub nimble_discover_service_by_uuid :
      ℕ → ℕ → List (DiscCall GattSvc) → Option (Poll (GattResult (List (Service P))))
  unfolding discover service_discovered_cb
  nimble_discover_service_by_uuid =
      discover service_discovered_cb (λ e. GattError.service_discovery_failed e)
        GattError.no_services_discovered

  pub nimble_discover_characteristics :
      ℕ → ℕ → List (DiscCall GattChr) → Option (Poll (GattResult (List (Characteristic P))))
  unfolding discover characteristic_disc_cb
  nimble_discover_characteristics =
      discover characteristic_disc_cb (λ e. GattError.characteristic_discovery_failed e)
        GattError.no_characteristics_discovered

  pub nimble_discover_characteristic_descriptors :
      ℕ → ℕ → List (DiscCall GattDsc) → Option (Poll (GattResult (List (Descriptor P))))
  unfolding discover characteristic_descriptor_disc_cb
  nimble_discover_characteristic_descriptors =
      discover characteristic_descriptor_disc_cb (λ e. GattError.descriptor_discovery_failed e)
        GattError.no_descriptors_discovered
