-- ===== src/Discovery/Callbacks/Laws.antt =====
-- What a discovery returns, from the calls that NimBLE makes.
use esp_nimble_host.ReturnCode.{error_of_code}
use esp_nimble_host.ReturnCode.Laws.{return_code_to_result_failed}
use esp_nimble_host.Error.{GattResult, GattError, NimbleError, DataError}
use esp_nimble_host.Platform.{SignalLaws, Platform}
use esp_nimble_host.Prelude.{
  ℕ, ◌≡◌, refl, sym, ap, ◌∙◌, subst, ◌≢◌, ◌⊎◌, inl, inr, false, Option, none, some, List, [], ◌∷◌,
  ◌++◌, arith, Result, ok, err, ready, ℤ, pos, negsuc, ◌==◌, if◌then◌else◌, All, Bool-cases, ==_iff,
  eq→==, ne→==,
}
use mathlib.Core.List.{append-nil, append_assoc}
use esp_nimble_host.Discovery.Callbacks.{
  returned, DiscCall, accumulate, on_item, on_terminal, discovered_cb, on_disc_call,
  disc_terminal_result, discover, discover_start, discover_resume,
}
use esp_nimble_host.Operation.Laws.{
  finished_with, deliver_step, join-finished_with, take_context-finished_with, on_own_operation_own,
  on_own_operation_foreign, run_started_accepted,
}
use esp_nimble_host.Operation.{Outcome, Operation, deliver, peripheral_operation, awaiting}

module _ (P : Platform) {I X : Type 0} (convert : I → Result X DataError)
    (err_map : NimbleError → GattError) (nothing : GattError) (conn_handle : ℕ) where
  open P use {bindings}

  abbrev cb : DiscCall I → Operation P (List X) → Outcome (Operation P (List X))
  cb = on_disc_call P (discovered_cb P convert err_map)

  -- The operation with the items of `acc` collected.
  abbrev collected : List X → Operation P (List X)
  collected acc = peripheral_operation P conn_handle acc

  -- A call of the running procedure: not this operation's, or one that delivers an item.
  abbrev pub IsOngoing : DiscCall I → Type 0
  IsOngoing c = (c.error ≡ none) ⊎ (c.conn_handle ≢ conn_handle) ⊎ (c.error ≡ some 0)

  ok_list : Result X DataError → List X
  ok_list (ok x) = x ∷ []
  ok_list (err e) = []

  item_list : Option I → List X
  unfolding ok_list
  item_list none = []
  item_list (some i) = ok_list (convert i)

  contribution : ℕ → Option ℕ → Option I → List X
  unfolding item_list
  contribution caller none item = []
  contribution caller (some status) item = if caller == conn_handle then item_list item else []

  -- The items of this operation's calls that could be converted, in order.
  pub items : List (DiscCall I) → List X
  unfolding contribution
  items [] = []
  items (c ∷ cs) = contribution c.conn_handle c.error c.item ++ items cs

  abbrev Step : Outcome (Operation P (List X)) → List X → Type 0
  Step outcome acc = (code : ℤ) × (outcome ≡ returned code (collected acc))

  accumulate-Step :
      (r : Result X DataError) (acc : List X)
      → Step (accumulate P convert err_map r (collected acc)) (acc ++ ok_list r)
  unfolding accumulate ok_list peripheral_operation
  accumulate-Step (ok x) acc = (pos 0, refl)
  accumulate-Step (err e) acc = (negsuc 0, rw (append-nil acc) refl)

  on_item-Step :
      (item : Option I) (acc : List X)
      → Step (on_item P convert err_map item (collected acc)) (acc ++ item_list item)
  unfolding on_item item_list
  on_item-Step none acc = (negsuc 0, rw (append-nil acc) refl)
  on_item-Step (some i) acc = accumulate-Step (convert i) acc

  own-Step :
      (status : ℕ) (item : Option I) (acc : List X)
      → status ≡ 0
      → Step
          (discovered_cb P convert err_map conn_handle (some status) item false (collected acc))
          (acc ++ contribution conn_handle (some status) item)
  unfolding discovered_cb contribution peripheral_operation
  own-Step status item acc h =
      let (code, e) = on_item-Step item acc in
      (
        code,
        rw (eq→== conn_handle conn_handle refl, h)
            (on_own_operation_own P conn_handle (collected acc) _ refl refl ∙ e),
      )

  cb-Step :
      (caller : ℕ) (error : Option ℕ) (item : Option I) (acc : List X)
      → (error ≡ none) ⊎ (caller ≢ conn_handle) ⊎ (error ≡ some 0)
      → Step
          (discovered_cb P convert err_map caller error item false (collected acc))
          (acc ++ contribution caller error item)
  unfolding discovered_cb contribution peripheral_operation
  cb-Step caller none item acc h = (negsuc 0, rw (append-nil acc) refl)
  cb-Step caller (some status) item acc (inl h) = cc
  cb-Step caller (some status) item acc (inr (inl h)) = (
    pos 0,
    rw (ne→== caller conn_handle h, append-nil acc)
        (on_own_operation_foreign P caller (collected acc) _ refl h),
  )
  cb-Step caller (some status) item acc (inr (inr h)) = elim (Bool-cases (caller == conn_handle)) [
    | inl e ↦
        subst
          (λ (c : ℕ).
            Step (discovered_cb P convert err_map c (some status) item false (collected acc))
              (acc ++ contribution c (some status) item))
          (sym ((==_iff caller conn_handle).0 e)) (own-Step status item acc (ground arith))
    | inr e ↦ (
      pos 0,
      rw (e, append-nil acc)
          (on_own_operation_foreign P caller (collected acc) _ refl (ground arith)),
    )
  ]

  -- A run of such calls collects the items.
  deliver-collected :
      (calls more : List (DiscCall I)) (acc : List X)
      → All IsOngoing calls
      → deliver P cb (calls ++ more) (collected acc)
        ≡ deliver P cb more (collected (acc ++ items calls))
  unfolding items on_disc_call
  deliver-collected [] more acc h = rw (append-nil acc) refl
  deliver-collected (c ∷ cs) more acc h =
      let (code, e) = cb-Step c.conn_handle c.error c.item acc h.0 in
      deliver_step P cb c (cs ++ more) (collected acc) _ code e
      ∙ deliver-collected cs more (acc ++ contribution c.conn_handle c.error c.item) h.1
      ∙ ap (λ l. deliver P cb more (collected l)) (append_assoc acc _ (items cs))

  -- How a procedure ends, by its last status.
  pub ending : ℕ → GattResult (Unit {0})
  ending status =
      if status == bindings.ble_hs_edone
      then ok tt
      else err (err_map (error_of_code bindings status))

  disc_terminal_result-ending :
      (status : ℕ) → status ≢ 0 → disc_terminal_result P status err_map ≡ some (ending status)
  unfolding disc_terminal_result ending
  disc_terminal_result-ending status h = elim (Bool-cases (status == bindings.ble_hs_edone)) [
    | inl e ↦ rw e refl
    | inr e ↦ rw (e, return_code_to_result_failed bindings status tt h (ground arith)) refl
  ]

  terminal_step :
      (status : ℕ) (item : Option I) (acc : List X)
      → status ≢ 0
      → discovered_cb P convert err_map conn_handle (some status) item false (collected acc)
        ≡ returned (pos 0) (finished_with P conn_handle acc (ending status))
  unfolding discovered_cb on_terminal peripheral_operation finished_with
  terminal_step status item acc h =
      rw (ne→== status 0 h, disc_terminal_result-ending status h)
        (on_own_operation_own P conn_handle (collected acc) _ refl refl)

  abbrev last_call : ℕ → Option I → DiscCall I
  last_call status item = record { conn_handle = conn_handle; error = some status; item = item }

  resume_finished :
      (laws : SignalLaws P) (acc : List X) (r : GattResult (Unit {0}))
      → discover_resume P
          (discovered_cb P convert err_map)
          err_map
          nothing
          (finished_with P conn_handle acc r)
        ≡ awaiting (ready r) (ok acc)
  unfolding discover_resume
  resume_finished laws acc r =
      rw
        (
          join-finished_with P laws conn_handle acc r,
          take_context-finished_with P conn_handle acc r,
        )
        refl

  await_ending :
      (status : ℕ) (acc : List X)
      → awaiting (ready (ending status)) (ok acc)
        ≡ ready (
            if status == bindings.ble_hs_edone
            then ok acc
            else err (err_map (error_of_code bindings status)))
  unfolding awaiting ending
  await_ending status acc = ground arith

  -- A discovery that NimBLE accepts, runs by delivering items among calls for other connections,
  -- and ends by a call with a status other than 0, is ready: with all the items that could be
  -- converted, in order, after `BLE_HS_EDONE`, and with the error of the status after any other.
  pub discover-result :
      (laws : SignalLaws P) (calls : List (DiscCall I)) (status : ℕ) (item : Option I)
      → All IsOngoing calls
      → status ≢ 0
      → discover P
          (discovered_cb P convert err_map)
          err_map
          nothing
          conn_handle
          0
          (calls ++ last_call status item ∷ [])
        ≡ some (
            ready (
              if status == bindings.ble_hs_edone
              then ok (items calls)
              else err (err_map (error_of_code bindings status))))
  unfolding discover discover_start deliver
  discover-result laws calls status item ongoing h =
      run_started_accepted P _ cb err_map 0 (collected []) (calls ++ last_call status item ∷ [])
        (finished_with P conn_handle (items calls) (ending status)) refl
        (deliver-collected calls (last_call status item ∷ []) [] ongoing
          ∙ deliver_step P cb (last_call status item) [] (collected (items calls)) _ (pos 0)
              (unfold on_disc_call in terminal_step status item (items calls) h))
      ∙ ap (λ r. some r)
          (resume_finished laws (items calls) (ending status) ∙ await_ending status (items calls))
