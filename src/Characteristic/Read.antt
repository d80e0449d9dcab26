-- ===== src/Characteristic/Read.antt =====
-- `read_attribute` and its callback.
mod Laws
mod Tests
use esp_nimble_host.Prelude.{
  ℕ, Bool, true, false, List, Option, none, some, Result, ok, err, Poll, pending, ready, ℤ, pos,
  negsuc, ◌==◌, if◌then◌else◌, ok_or, map_err,
}
use mathlib.Core.Option
use esp_nimble_host.Error.{NimbleError, NimbleResult, GattError, GattResult}
use esp_nimble_host.Platform.{Platform}
use esp_nimble_host.ReturnCode.{return_code_to_result}
use esp_nimble_host.Host.{ble_hs_mbuf_to_flat}
use esp_nimble_host.Operation.{
  Operation, Outcome, returned, Started, failed, waiting, peripheral_operation, start_operation,
  send_finished, drop_box, join, take_context, awaiting, run_started, on_own_operation,
}

-- `ReadOperationContext`.
abbrev pub Context : Type 0
Context = Option (List ℕ)

abbrev pub flatten : {A : Type 0} → Option (Option A) → Option A
flatten none = none
flatten (some o) = o

module _ (P : Platform) where
  open P use {bindings, Mbuf}

  -- `ble_gatt_attr`, as far as it is read.
  pub record GattAttr : Type 0 where
    pub om : Option Mbuf

  -- `match ble_hs_mbuf_to_flat(attr.om)`: store the bytes and send the result.
  pub read_flat : NimbleResult (List ℕ) → Operation P Context → Operation P Context
  read_flat (ok om_data) op = send_finished P (record op { context = some om_data }) (ok tt)
  read_flat (err e) op = send_finished P op (err (GattError.read_failed e))

  pub read_success : Option GattAttr → Operation P Context → Operation P Context
  unfolding read_flat
  read_success none op = send_finished P op (err GattError.no_data)
  read_success (some attr) op = read_flat (ble_hs_mbuf_to_flat P attr.om) op

  -- The result of a status that is not 0.
  pub read_error : ℕ → Operation P Context → Operation P Context
  read_error status op =
      send_finished P op (map_err GattError.read_failed (return_code_to_result bindings status tt))

  -- All read callbacks are terminal: the box is dropped on every path that reaches it.
  pub read_attribute_callback :
      ℕ → Option ℕ → Option GattAttr → Bool → Operation P Context → Outcome (Operation P Context)
  unfolding read_success read_error on_own_operation drop_box
  read_attribute_callback conn_handle none attr arg_is_null op = returned (negsuc 0) op
  read_attribute_callback conn_handle (some status) attr true op = returned (negsuc 0) op
  read_attribute_callback conn_handle (some status) attr false op =
      on_own_operation P conn_handle op (
        returned (pos 0)
          (drop_box P (if status == 0 then read_success attr op else read_error status op)))

  -- One call that NimBLE makes, with the pointers that it was given.
  pub record ReadCall : Type 0 where
    pub conn_handle : ℕ
    pub error : Option ℕ
    pub attr : Option GattAttr

  pub on_read_call : ReadCall → Operation P Context → Outcome (Operation P Context)
  unfolding read_attribute_callback
  on_read_call c = read_attribute_callback c.conn_handle c.error c.attr false

  -- Up to the first await; `rc` is what `ble_gattc_read` returned.
  pub read_attribute_start : ℕ → ℕ → Started P Context
  unfolding start_operation peripheral_operation
  read_attribute_start conn_handle rc =
      start_operation P GattError.read_failed (return_code_to_result bindings rc tt)
        (peripheral_operation P conn_handle none)

  -- From the await on, on one poll.
  pub read_attribute_resume : Operation P Context → Poll (GattResult (List ℕ))
  unfolding awaiting join take_context
  read_attribute_resume op =
      let (finished, op') = join P op in
      awaiting finished (ok_or GattError.no_data (flatten (take_context P op')))

  -- The whole function, where NimBLE makes the calls `calls` before the task is polled. `none` is
  -- a fault.
  pub read_attribute : ℕ → ℕ → List ReadCall → Option (Poll (GattResult (List ℕ)))
  unfolding read_attribute_start read_attribute_resume on_read_call run_started
  read_attribute conn_handle rc calls =
      run_started P read_attribute_resume on_read_call calls (read_attribute_start conn_handle rc)
