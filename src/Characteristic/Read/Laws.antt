-- ===== src/Characteristic/Read/Laws.antt =====
-- What `read_attribute` returns, from the calls that NimBLE makes.
use esp_nimble_host.Prelude.{
  ℕ, ◌≡◌, refl, ap, ◌≢◌, ◌⊎◌, ◌∙◌, inl, inr, false, List, [], ◌∷◌, ◌++◌, All, Option, none, some,
  ok, err, pending, ready, ℤ, pos, ok_or, negsuc, ◌==◌, if◌then◌else◌, map_err, arith, ne→==,
  ==_iff, Bool-cases,
}
use esp_nimble_host.Error.{GattError, GattResult, NimbleResult}
use esp_nimble_host.Platform.{Platform, SignalLaws}
use esp_nimble_host.ReturnCode.{error_of_code}
use esp_nimble_host.ReturnCode.Laws.{return_code_to_result_done, return_code_to_result_failed}
use esp_nimble_host.Host.{ble_hs_mbuf_to_flat}
use esp_nimble_host.Operation.{
  Operation, returned, peripheral_operation, deliver, awaiting, drop_box,
}
use esp_nimble_host.Operation.Laws.{
  finished_with, deliver_step, deliver_ignored, deliver-All_ignored, run_started_accepted,
  run_started_refused, join-finished_with, take_context-finished_with, on_own_operation_own,
  on_own_operation_foreign, join-peripheral_operation,
}
use esp_nimble_host.Characteristic.Read.{
  Context, flatten, GattAttr, ReadCall, read_flat, read_success, read_error,
  read_attribute_callback, on_read_call, read_attribute_resume, read_attribute,
}

module _ (P : Platform) where
  open P use {bindings}

  -- The result that a read should have, by the status and the attribute of its one answer.
  pub attr_result : Option (GattAttr P) → GattResult (List ℕ)
  attr_result none = err GattError.no_data
  attr_result (some attr) = map_err GattError.read_failed (ble_hs_mbuf_to_flat P attr.om)

  pub read_result : ℕ → Option (GattAttr P) → GattResult (List ℕ)
  read_result status attr =
      if status == 0
      then attr_result attr
      else if status == bindings.ble_hs_edone
      then err GattError.no_data
      else err (GattError.read_failed (error_of_code bindings status))

  -- A call that is not for this operation: it has no error struct or another connection's handle.
  abbrev pub ForeignCall : ℕ → ReadCall P → Type 0
  ForeignCall conn_handle c = (c.error ≡ none) ⊎ (c.conn_handle ≢ conn_handle)

  abbrev start : ℕ → Operation P Context
  start conn_handle = peripheral_operation P conn_handle none

  abbrev own : ℕ → ℕ → Option (GattAttr P) → ReadCall P
  own conn_handle status attr = record {
    conn_handle = conn_handle;
    error = some status;
    attr = attr;
  }

  -- A terminal state from which the task reads `result`.
  abbrev Finishes : ℕ → Operation P Context → GattResult (List ℕ) → Type 0
  Finishes conn_handle op result =
      (ctx : Context) × (r : GattResult (Unit {0})) × (op ≡ finished_with P conn_handle ctx r)
      × (awaiting (ready r) (ok_or GattError.no_data (flatten (some ctx))) ≡ ready result)

  callback_foreign :
      (conn_handle caller : ℕ) (error : Option ℕ) (attr : Option (GattAttr P))
      → (error ≡ none) ⊎ (caller ≢ conn_handle)
      → (code : ℤ) × (read_attribute_callback P caller error attr false (start conn_handle)
          ≡ returned code (start conn_handle))
  unfolding read_attribute_callback peripheral_operation
  callback_foreign conn_handle caller none attr f = (negsuc 0, refl)
  callback_foreign conn_handle caller (some status) attr (inl f) = cc
  callback_foreign conn_handle caller (some status) attr (inr f) =
      (pos 0, on_own_operation_foreign P caller (start conn_handle) _ refl f)

  read_flat-Finishes :
      (conn_handle : ℕ) (flat : NimbleResult (List ℕ))
      → Finishes conn_handle
          (drop_box P (read_flat P flat (start conn_handle)))
          (map_err GattError.read_failed flat)
  unfolding read_flat finished_with awaiting
  read_flat-Finishes conn_handle (ok bytes) = (some bytes, ok tt, refl, refl)
  read_flat-Finishes conn_handle (err e) = (none, err (GattError.read_failed e), refl, refl)

  read_success-Finishes :
      (conn_handle : ℕ) (attr : Option (GattAttr P))
      → Finishes conn_handle
          (drop_box P (read_success P attr (start conn_handle)))
          (attr_result attr)
  unfolding read_success attr_result finished_with awaiting
  read_success-Finishes conn_handle none = (none, err GattError.no_data, refl, refl)
  read_success-Finishes conn_handle (some attr) = read_flat-Finishes conn_handle _

  read_error-Finishes :
      (conn_handle status : ℕ) (attr : Option (GattAttr P))
      → status ≢ 0
      → Finishes conn_handle
          (drop_box P (read_error P status (start conn_handle)))
          (read_result status attr)
  unfolding read_error read_result finished_with awaiting
  read_error-Finishes conn_handle status attr h =
      elim (Bool-cases (status == bindings.ble_hs_edone)) [
        | inl e ↦ (
          none,
          ok tt,
          rw (return_code_to_result_done bindings status tt (inr ((==_iff status _).0 e))) refl,
          rw (ne→== status 0 h, e) refl,
        )
        | inr e ↦ (
          none,
          err (GattError.read_failed (error_of_code bindings status)),
          rw (return_code_to_result_failed bindings status tt h (ground arith)) refl,
          rw (ne→== status 0 h, e) refl,
        )
      ]

  callback_own :
      (conn_handle status : ℕ) (attr : Option (GattAttr P))
      → (op : Operation P Context) × (read_attribute_callback P conn_handle
            (some status)
            attr
            false
            (start conn_handle)
          ≡ returned (pos 0) op)
        × Finishes conn_handle op (read_result status attr)
  unfolding read_attribute_callback peripheral_operation read_result
  callback_own conn_handle status attr = elim (Bool-cases (status == 0)) [
    | inl e ↦ (
      drop_box P (read_success P attr (start conn_handle)),
      rw e (on_own_operation_own P conn_handle (start conn_handle) _ refl refl),
      rw e (read_success-Finishes conn_handle attr),
    )
    | inr e ↦ (
      drop_box P (read_error P status (start conn_handle)),
      rw e (on_own_operation_own P conn_handle (start conn_handle) _ refl refl),
      read_error-Finishes conn_handle status attr (ground arith),
    )
  ]

  skip :
      (conn_handle : ℕ) (before calls : List (ReadCall P))
      → All (ForeignCall conn_handle) before
      → deliver P (on_read_call P) (before ++ calls) (start conn_handle)
        ≡ deliver P (on_read_call P) calls (start conn_handle)
  unfolding on_read_call
  skip conn_handle before calls =
      deliver_ignored P (on_read_call P) (ForeignCall conn_handle) (start conn_handle)
        (λ c f. callback_foreign conn_handle c.conn_handle c.error c.attr f) before calls

  resume_finished :
      (laws : SignalLaws P) (conn_handle : ℕ) (op : Operation P Context)
      (result : GattResult (List ℕ))
      → Finishes conn_handle op result
      → read_attribute_resume P op ≡ ready result
  unfolding read_attribute_resume
  resume_finished laws conn_handle op result (ctx, r, e, h) =
      rw
        (
          e,
          join-finished_with P laws conn_handle ctx r,
          take_context-finished_with P conn_handle ctx r,
        )
        h

  -- When `ble_gattc_read` accepts the request, and among calls for other connections makes one
  -- call for this operation, the read is ready with the result of that call, whatever it reports.
  pub read_attribute-result :
      (laws : SignalLaws P) (conn_handle status : ℕ) (attr : Option (GattAttr P))
      (before : List (ReadCall P))
      → All (ForeignCall conn_handle) before
      → read_attribute P conn_handle 0 (before ++ own conn_handle status attr ∷ [])
        ≡ some (ready (read_result status attr))
  unfolding read_attribute deliver
  read_attribute-result laws conn_handle status attr before foreign =
      let (op, e, f) = callback_own conn_handle status attr in
      run_started_accepted P (read_attribute_resume P) (on_read_call P) GattError.read_failed 0
        (start conn_handle) (before ++ own conn_handle status attr ∷ []) op refl
        (skip conn_handle before _ foreign
          ∙ deliver_step P (on_read_call P) (own conn_handle status attr) [] (start conn_handle) op
              (pos 0) e)
      ∙ ap (λ r. some r) (resume_finished laws conn_handle op _ f)

  -- When `ble_gattc_read` refuses the request, by a code other than 0 and `BLE_HS_EDONE`, the read
  -- fails at once with the reason.
  pub read_attribute_refused :
      (conn_handle rc : ℕ) (calls : List (ReadCall P))
      → rc ≢ 0
      → rc ≢ bindings.ble_hs_edone
      → read_attribute P conn_handle rc calls
        ≡ some (ready (err (GattError.read_failed (error_of_code bindings rc))))
  unfolding read_attribute
  read_attribute_refused conn_handle rc calls h k =
      run_started_refused P (read_attribute_resume P) (on_read_call P) GattError.read_failed rc
        (start conn_handle) calls h k

  -- When `ble_gattc_read` accepts the request, the read is pending while NimBLE makes only calls
  -- that are not for it.
  pub read_attribute_pending :
      (laws : SignalLaws P) (conn_handle : ℕ) (before : List (ReadCall P))
      → All (ForeignCall conn_handle) before
      → read_attribute P conn_handle 0 before ≡ some pending
  unfolding read_attribute awaiting
  read_attribute_pending laws conn_handle before foreign =
      run_started_accepted P (read_attribute_resume P) (on_read_call P) GattError.read_failed 0
        (start conn_handle) before (start conn_handle) refl
        (deliver-All_ignored P (on_read_call P) (ForeignCall conn_handle) (start conn_handle)
          (λ c f.
            unfold on_read_call in callback_foreign conn_handle c.conn_handle c.error c.attr f)
          before foreign)
      ∙ ap (λ r. some r)
          (unfold read_attribute_resume in
            rw (join-peripheral_operation P {C = Context} laws conn_handle none) refl)
