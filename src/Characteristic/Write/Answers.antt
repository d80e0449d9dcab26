-- ===== src/Characteristic/Write/Answers.antt =====
-- What a write returns, from the calls that NimBLE makes.
use mathlib.Core.Option
use esp_nimble_host.ReturnCode.Laws.{map_err-return_code_to_result}
use esp_nimble_host.ReturnCode.{error_of_code}
use esp_nimble_host.Operation.Laws.{
  deliver_step, deliver_ignored, join-finished_with, on_own_operation_own, on_own_operation_foreign,
  finished_with,
}
use esp_nimble_host.Operation.{deliver, run_started, peripheral_operation, Operation}
use esp_nimble_host.Error.{GattError, GattResult}
use esp_nimble_host.Platform.{SignalLaws, Platform}
use esp_nimble_host.Prelude.{
  ℕ, ◌-◌, ◌≤◌, ◌≡◌, refl, ap, ◌∙◌, ◌≢◌, ◌⊎◌, inl, inr, Bool, false, ◌||◌, Option, none, some, List,
  [], ◌∷◌, ◌++◌, ok, err, ready, ℤ, pos, negsuc, ◌==◌, if◌then◌else◌, length, All,
}
use esp_nimble_host.Characteristic.Write.{
  on_write_call, write_attribute_resume, returned, StatusCall, write_attribute_callback,
  write_attribute_start, write_attribute_run, write_request, WriteCall,
}
use esp_nimble_host.Characteristic.Write.Laws.{write_attribute_start_accepted, required, no_rsp}

module _ (P : Platform) where
  open P use {bindings}

  abbrev start : ℕ → Operation P (Unit {0})
  start conn_handle = peripheral_operation P conn_handle tt

  pub write_result : ℕ → GattResult (Unit {0})
  write_result status =
      if (status == 0) || (status == bindings.ble_hs_edone)
      then ok tt
      else err (GattError.write_failed (error_of_code bindings status))

  -- A call that is not for this operation.
  abbrev pub ForeignCall : ℕ → StatusCall P → Type 0
  ForeignCall conn_handle c = (c.error ≡ none) ⊎ (c.conn_handle ≢ conn_handle)

  abbrev own : ℕ → ℕ → StatusCall P
  own conn_handle status = record { conn_handle = conn_handle; error = some status }

  callback_foreign :
      (conn_handle caller : ℕ) (error : Option ℕ)
      → (error ≡ none) ⊎ (caller ≢ conn_handle)
      → (code : ℤ) × (write_attribute_callback P caller error false (start conn_handle)
          ≡ returned code (start conn_handle))
  unfolding write_attribute_callback peripheral_operation
  callback_foreign conn_handle caller none f = (negsuc 0, refl)
  callback_foreign conn_handle caller (some status) (inl f) = cc
  callback_foreign conn_handle caller (some status) (inr f) =
      (pos 0, on_own_operation_foreign P caller (start conn_handle) _ refl f)

  callback_own :
      (conn_handle status : ℕ)
      → write_attribute_callback P conn_handle (some status) false (start conn_handle)
        ≡ returned (pos status) (finished_with P conn_handle tt (write_result status))
  unfolding write_attribute_callback write_result peripheral_operation finished_with
  callback_own conn_handle status =
      on_own_operation_own P conn_handle (start conn_handle) _ refl refl
      ∙ rw (map_err-return_code_to_result bindings status tt (λ e. GattError.write_failed e)) refl

  resume_finished :
      (laws : SignalLaws P) (conn_handle : ℕ) (r : GattResult (Unit {0}))
      → write_attribute_resume P (finished_with P conn_handle tt r) ≡ ready r
  unfolding write_attribute_resume
  resume_finished laws conn_handle r = join-finished_with P laws conn_handle tt r

  -- A write with an MTU of at least 3 that asks for a response, or does not fit the MTU: when
  -- NimBLE accepts the request, and among calls for other connections makes one call for this
  -- operation, the write is ready with the result of that call.
  pub write_attribute-result :
      (laws : SignalLaws P) (reply : WriteCall P.Mbuf → ℕ) (conn_handle attr_handle mtu status : ℕ)
      (bytes : List ℕ) (response : Bool) (before : List (StatusCall P))
      → 3 ≤ mtu
      → required response (length bytes) mtu ≢ no_rsp
      → (write_request P reply conn_handle attr_handle bytes (mtu - 3)).result ≡ ok tt
      → All (ForeignCall conn_handle) before
      → write_attribute_run P
          (before ++ own conn_handle status ∷ [])
          (write_attribute_start P reply conn_handle attr_handle bytes response mtu)
        ≡ some (ready (write_result status))
  unfolding write_attribute_run run_started deliver on_write_call
  write_attribute-result laws reply conn_handle attr_handle mtu status bytes response before h needs
        accepted foreign =
      rw
        (write_attribute_start_accepted P reply conn_handle attr_handle mtu bytes response h needs
          accepted)
        (ap (Option.map (write_attribute_resume P)) (
            deliver_ignored P (on_write_call P) (ForeignCall conn_handle) (start conn_handle)
              (λ c f. callback_foreign conn_handle c.conn_handle c.error f) before
              (own conn_handle status ∷ []) foreign
            ∙ deliver_step P (on_write_call P) (own conn_handle status) [] (start conn_handle) _
                (pos status) (callback_own conn_handle status))
          ∙ ap (λ r. some r) (resume_finished laws conn_handle (write_result status)))
