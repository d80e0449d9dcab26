-- ===== src/Peripheral/Connect/Result.antt =====
-- What `handle_connect` of src/peripheral.rs makes of the status of a CONNECT event.
use esp_nimble_host.ReturnCode.Laws.{return_code_to_result_failed, return_code_to_result_done}
use esp_nimble_host.ReturnCode.{error_of_code, return_code_to_result}
use esp_nimble_host.Platform.{Platform}
use esp_nimble_host.Prelude.{
  ap, arith, ◌||◌, ◌==◌, ok, Bool-cases, ℕ, ◌≡◌, refl, ◌≢◌, ◌⊎◌, inl, inr, err,
}
use esp_nimble_host.Error.{ConnectResult, NimbleError, ConnectError}
use esp_nimble_host.Peripheral.Events.{connect_result_of}

error_reported :
    (e : NimbleError)
    → ((e ≡ NimbleError.timeout) × (connect_result_of (err e) ≡ err ConnectError.timeout))
      ⊎ ((e ≢ NimbleError.timeout)
          × (connect_result_of (err e) ≡ err (ConnectError.gap_connect_failed e)))
unfolding connect_result_of
error_reported NimbleError.timeout = inl (refl, refl)
error_reported e = inr ((λ q. cc), refl)

module _ (P : Platform) where
  open P use {bindings}

  -- Success for the status 0 and `BLE_HS_EDONE`, the timeout as an error of its own, and any other
  -- NimBLE error inside `GapConnectFailed`.
  abbrev pub FollowsStatus : ℕ → ConnectResult (Unit {0}) → Type 0
  FollowsStatus status r =
      (((status ≡ 0) ⊎ (status ≡ bindings.ble_hs_edone)) × (r ≡ ok tt))
      ⊎ ((status ≢ 0)
          × (status ≢ bindings.ble_hs_edone)
          × (((error_of_code bindings status ≡ NimbleError.timeout)
                × (r ≡ err ConnectError.timeout))
              ⊎ ((error_of_code bindings status ≢ NimbleError.timeout)
                  × (r ≡ err (ConnectError.gap_connect_failed (error_of_code bindings status))))))

  pub connect_result_of-FollowsStatus :
      (status : ℕ)
      → FollowsStatus status (connect_result_of (return_code_to_result bindings status tt))
  unfolding connect_result_of
  connect_result_of-FollowsStatus status =
      elim (Bool-cases ((status == 0) || (status == bindings.ble_hs_edone))) [
        | inl e ↦
            (let h : (status ≡ 0) ⊎ (status ≡ bindings.ble_hs_edone) = ground arith in
              inl (h, ap connect_result_of (return_code_to_result_done bindings status tt h)))
        | inr e ↦
            (let h : status ≢ 0 = ground arith in
              let k : status ≢ bindings.ble_hs_edone = ground arith in
              inr (
                h,
                k,
                rw (return_code_to_result_failed bindings status tt h k)
                    (error_reported (error_of_code bindings status)),
              ))
      ]
