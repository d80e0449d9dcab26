-- ===== src/Characteristic/Write.antt =====
-- `write_attribute`, its callback, and the wrappers of src/nimble_sys/gattc.rs that it calls.
mod Laws
mod Answers
mod Tests
use esp_nimble_host.ReturnCode.{return_code_to_result}
use esp_nimble_host.Host.{ble_att_mtu, ble_hs_mbuf_from_flat}
use esp_nimble_host.Error.{GattError, GattResult, NimbleResult}
use esp_nimble_host.Operation.{
  send_finished, peripheral_operation, drop_box, start_operation, on_own_operation, run_started,
  returned, join, Outcome, Started, Operation,
}
use esp_nimble_host.Prelude.{
  true, none, ◌-◌, ltb, ◌>>=◌, pos, map_err, negsuc, ◌&&◌, false, ok, ready, ◌^◌, [], not, leb,
  some, ◌∷◌, ◌%◌, if◌then◌else◌, err, length, Poll, List, Option, ℕ, Bool,
}
use esp_nimble_host.Platform.{WaitResult, Platform}

-- A write that NimBLE is asked for, with the arguments of the C function.
pub data WriteCall (Mbuf : Type 0) : Type 0 where
  write_no_rsp_flat write_flat : ℕ → ℕ → List ℕ → ℕ → WriteCall Mbuf
  write_long : ℕ → ℕ → ℕ → Mbuf → WriteCall Mbuf

-- A write procedure that was asked for, or one that could not be: the calls made, and the result.
pub record Issued (Mbuf : Type 0) : Type 0 where
  pub calls : List (WriteCall Mbuf)
  pub result : NimbleResult (Unit {0})

-- What `write_attribute` has before it awaits anything: a result, or a started procedure.
pub data WriteStart (P : Platform) : Type 0 where
  returns : List (WriteCall P.Mbuf) → GattResult (Unit {0}) → WriteStart P
  starts : List (WriteCall P.Mbuf) → Started P (Unit {0}) → WriteStart P

-- `reply` is NimBLE's return code for a call.
module _ (P : Platform) (reply : WriteCall P.Mbuf → ℕ) where
  open P use {bindings, Mbuf}

  issue : WriteCall Mbuf → Issued Mbuf
  issue call = record { calls = call ∷ []; result = return_code_to_result bindings (reply call) tt }

  ble_gattc_write_no_rsp_flat : ℕ → ℕ → List ℕ → Issued Mbuf
  unfolding issue
  ble_gattc_write_no_rsp_flat conn_handle attr_handle bytes =
      issue (write_no_rsp_flat conn_handle attr_handle bytes (length bytes % 2 ^ 16))

  ble_gattc_write_flat : ℕ → ℕ → List ℕ → Issued Mbuf
  unfolding issue
  ble_gattc_write_flat conn_handle attr_handle bytes =
      issue (write_flat conn_handle attr_handle bytes (length bytes % 2 ^ 16))

  write_long_from : ℕ → ℕ → ℕ → NimbleResult Mbuf → Issued Mbuf
  unfolding issue
  write_long_from conn_handle attr_handle offset (err e) = record { calls = []; result = err e }
  write_long_from conn_handle attr_handle offset (ok om) =
      issue (write_long conn_handle attr_handle offset om)

  ble_gattc_write_long : ℕ → ℕ → ℕ → List ℕ → Issued Mbuf
  unfolding write_long_from
  ble_gattc_write_long conn_handle attr_handle offset bytes =
      write_long_from conn_handle attr_handle offset (ble_hs_mbuf_from_flat P bytes)

  pub write_request : ℕ → ℕ → List ℕ → ℕ → Issued Mbuf
  write_request conn_handle attr_handle bytes mtu =
      if leb (length bytes) mtu
      then ble_gattc_write_flat conn_handle attr_handle bytes
      else ble_gattc_write_long conn_handle attr_handle 0 bytes

  -- From the usable MTU on.
  write_within : ℕ → ℕ → List ℕ → Bool → ℕ → WriteStart P
  unfolding write_request
  write_within conn_handle attr_handle bytes response mtu =
      if not response && leb (length bytes) mtu
      then (let sent = ble_gattc_write_no_rsp_flat conn_handle attr_handle bytes in
          returns sent.calls (map_err GattError.write_failed sent.result))
      else (let sent = write_request conn_handle attr_handle bytes mtu in
          starts sent.calls (
            start_operation P GattError.write_failed sent.result
              (peripheral_operation P conn_handle tt)))

  -- `mtu.get().checked_sub(3).ok_or(GattError::AttMtuZero(conn_handle))?`
  usable_mtu : ℕ → ℕ → GattResult ℕ
  usable_mtu conn_handle mtu = do
    mtu ← map_err GattError.write_failed (ble_att_mtu conn_handle mtu)
    if ltb mtu 3 then err (GattError.att_mtu_zero conn_handle) else ok (mtu - 3)

  write_from : ℕ → ℕ → List ℕ → Bool → GattResult ℕ → WriteStart P
  unfolding write_within
  write_from conn_handle attr_handle bytes response (err e) = returns [] (err e)
  write_from conn_handle attr_handle bytes response (ok mtu) =
      write_within conn_handle attr_handle bytes response mtu

  -- Up to the await; `mtu` is what `ble_att_mtu` returned.
  pub write_attribute_start : ℕ → ℕ → List ℕ → Bool → ℕ → WriteStart P
  unfolding write_from usable_mtu
  write_attribute_start conn_handle attr_handle bytes response mtu =
      write_from conn_handle attr_handle bytes response (usable_mtu conn_handle mtu)

module _ (P : Platform) where
  open P use {bindings}

  -- All write callbacks are terminal.
  pub write_attribute_callback :
      ℕ → Option ℕ → Bool → Operation P (Unit {0}) → Outcome (Operation P (Unit {0}))
  write_attribute_callback conn_handle none arg_is_null op = returned (negsuc 0) op
  write_attribute_callback conn_handle (some status) true op = returned (negsuc 0) op
  write_attribute_callback conn_handle (some status) false op = on_own_operation P conn_handle op (
      returned (pos status) (
        drop_box P (
          send_finished P op
            (map_err GattError.write_failed (return_code_to_result bindings status tt)))))

  pub record StatusCall : Type 0 where
    pub conn_handle : ℕ
    pub error : Option ℕ

  pub on_write_call : StatusCall → Operation P (Unit {0}) → Outcome (Operation P (Unit {0}))
  unfolding write_attribute_callback
  on_write_call c = write_attribute_callback c.conn_handle c.error false

  -- `op_handle.join().await`, on one poll.
  pub write_attribute_resume : Operation P (Unit {0}) → Poll (GattResult (Unit {0}))
  write_attribute_resume op = (join P op).0

  -- The whole function, where NimBLE makes the calls `calls` before the task is polled.
  pub write_attribute_run : List StatusCall → WriteStart P → Option (Poll (GattResult (Unit {0})))
  unfolding write_attribute_resume on_write_call
  write_attribute_run calls (returns sent result) = some (ready result)
  write_attribute_run calls (starts sent started) =
      run_started P write_attribute_resume on_write_call calls started
