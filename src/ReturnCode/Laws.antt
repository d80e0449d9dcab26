-- ===== src/ReturnCode/Laws.antt =====
-- Which code an error of `return_code_to_result` stands for.
use esp_nimble_host.Prelude.{
  if◌then◌else◌, map_err, ℕ, ◌+◌, ◌-◌, [], ◌∷◌, ◌==◌, Bool-cases, ok, err, arith, ◌≡◌, refl, ◌⊎◌,
  inl, inr, ◌≢◌, Option, none, some, ◌||◌,
}
use esp_nimble_host.Error.{NimbleError}
use esp_nimble_host.Bindings.{Bindings}
use esp_nimble_host.ReturnCode.{
  Arms, match_code, hs_arms, att_arms, hci_arms, error_of_code, return_code_to_result,
}

module _ (b : Bindings) where
  abbrev att : ℕ → Option ℕ
  att c = some (b.ble_hs_err_att_base + c)

  abbrev hci : ℕ → Option ℕ
  hci c = some (b.ble_hs_err_hci_base + c)

  -- The NimBLE return code that an error stands for.
  unfoldable pub code_of_error : NimbleError → Option ℕ
  code_of_error NimbleError.operation_in_progress = some b.ble_hs_ealready
  code_of_error NimbleError.busy = some b.ble_hs_ebusy
  code_of_error NimbleError.invalid_argument = some b.ble_hs_einval
  code_of_error NimbleError.message_size = some b.ble_hs_emsgsize
  code_of_error NimbleError.no_entry = some b.ble_hs_enoent
  code_of_error NimbleError.no_memory = some b.ble_hs_enomem
  code_of_error NimbleError.not_connected = some b.ble_hs_enotconn
  code_of_error NimbleError.not_supported = some b.ble_hs_enotsup
  code_of_error NimbleError.app_error = some b.ble_hs_eapp
  code_of_error NimbleError.bad_data = some b.ble_hs_ebaddata
  code_of_error NimbleError.os_error = some b.ble_hs_eos
  code_of_error NimbleError.controller_error = some b.ble_hs_econtroller
  code_of_error NimbleError.timeout = some b.ble_hs_etimeout
  code_of_error NimbleError.reject = some b.ble_hs_ereject
  code_of_error NimbleError.unknown = some b.ble_hs_eunknown
  code_of_error NimbleError.role = some b.ble_hs_erole
  code_of_error NimbleError.timeout_hci = some b.ble_hs_etimeout_hci
  code_of_error NimbleError.no_mem_evt = some b.ble_hs_enomem_evt
  code_of_error NimbleError.no_addr = some b.ble_hs_enoaddr
  code_of_error NimbleError.not_synced = some b.ble_hs_enotsynced
  code_of_error NimbleError.authen = some b.ble_hs_eauthen
  code_of_error NimbleError.author = some b.ble_hs_eauthor
  code_of_error NimbleError.encrypt = some b.ble_hs_eencrypt
  code_of_error NimbleError.encrypt_key_size = some b.ble_hs_eencrypt_key_sz
  code_of_error NimbleError.store_cap = some b.ble_hs_estore_cap
  code_of_error NimbleError.store_fail = some b.ble_hs_estore_fail
  code_of_error NimbleError.att_invalid_handle = att b.att_invalid_handle
  code_of_error NimbleError.att_read_not_permitted = att b.att_read_not_permitted
  code_of_error NimbleError.att_write_not_permitted = att b.att_write_not_permitted
  code_of_error NimbleError.att_invalid_pdu = att b.att_invalid_pdu
  code_of_error NimbleError.att_insufficient_authen = att b.att_insufficient_authen
  code_of_error NimbleError.att_req_not_supported = att b.att_req_not_supported
  code_of_error NimbleError.att_invalid_offset = att b.att_invalid_offset
  code_of_error NimbleError.att_insufficient_author = att b.att_insufficient_author
  code_of_error NimbleError.att_prepare_queue_full = att b.att_prepare_queue_full
  code_of_error NimbleError.att_attr_not_found = att b.att_attr_not_found
  code_of_error NimbleError.att_attr_not_long = att b.att_attr_not_long
  code_of_error NimbleError.att_insufficient_key_size = att b.att_insufficient_key_sz
  code_of_error NimbleError.att_invalid_attr_value_len = att b.att_invalid_attr_value_len
  code_of_error NimbleError.att_unlikely = att b.att_unlikely
  code_of_error NimbleError.att_insufficient_enc = att b.att_insufficient_enc
  code_of_error NimbleError.att_unsupported_group = att b.att_unsupported_group
  code_of_error NimbleError.att_insufficient_res = att b.att_insufficient_res
  code_of_error NimbleError.hci_unknown_cmd = hci b.err_unknown_hci_cmd
  code_of_error NimbleError.hci_unknown_conn_id = hci b.err_unk_conn_id
  code_of_error NimbleError.hci_conn_term_local = hci b.err_conn_term_local
  code_of_error NimbleError.hci_conn_term_remote = hci b.err_rem_user_conn_term
  code_of_error NimbleError.hci_conn_establishment = hci b.err_conn_establishment
  code_of_error (NimbleError.att_mtu_zero h) = none
  code_of_error NimbleError.mbuf_creation_failed = none
  code_of_error (NimbleError.c_string_conversion_failed s) = none
  code_of_error (NimbleError.other rc) = some rc

  -- Every arm of a table carries the error of its own code, counted from `base`.
  abbrev Decodes : ℕ → Arms → Type 0
  Decodes base [] = Unit {0}
  Decodes base ((code, e) ∷ arms) = (code_of_error e ≡ some (base + code)) × Decodes base arms

  match_code-Decodes :
      (base k rc : ℕ) (arms : Arms)
      → Decodes base arms
      → rc ≡ base + k
      → code_of_error (match_code k arms (NimbleError.other rc)) ≡ some rc
  unfolding match_code code_of_error
  match_code-Decodes base k rc [] d h = refl
  match_code-Decodes base k rc ((code, e) ∷ arms) d h =
      ground (arith, match_code-Decodes base k rc arms d.1)

  hs_arms-Decodes : Decodes 0 (hs_arms b)
  unfolding hs_arms code_of_error
  hs_arms-Decodes = ground arith

  att_arms-Decodes : Decodes b.ble_hs_err_att_base (att_arms b)
  unfolding att_arms code_of_error
  att_arms-Decodes = ground arith

  hci_arms-Decodes : Decodes b.ble_hs_err_hci_base (hci_arms b)
  unfolding hci_arms code_of_error
  hci_arms-Decodes = ground arith

  -- The error of a code stands for that code and no other.
  pub error_of_code-decodes : (rc : ℕ) → code_of_error (error_of_code b rc) ≡ some rc
  unfolding error_of_code
  error_of_code-decodes rc = ground (
    arith,
    match_code-Decodes 0 rc rc (hs_arms b) hs_arms-Decodes,
    match_code-Decodes b.ble_hs_err_att_base (rc - b.ble_hs_err_att_base) rc (att_arms b)
        att_arms-Decodes,
    match_code-Decodes b.ble_hs_err_hci_base (rc - b.ble_hs_err_hci_base) rc (hci_arms b)
        hci_arms-Decodes,
  )

  -- A code is a success exactly when it is 0 or `BLE_HS_EDONE`, and the value is then passed on;
  -- any other code becomes an error from which that code can be read back.
  pub return_code_to_result-decodes :
      {A : Type 0} (rc : ℕ) (val : A)
      → ((return_code_to_result b rc val ≡ ok val) × ((rc ≡ 0) ⊎ (rc ≡ b.ble_hs_edone)))
        ⊎ ((e : NimbleError) × (return_code_to_result b rc val ≡ err e)
            × (code_of_error e ≡ some rc)
            × (rc ≢ 0)
            × (rc ≢ b.ble_hs_edone))
  unfolding return_code_to_result
  return_code_to_result-decodes rc val = elim (Bool-cases ((rc == 0) || (rc == b.ble_hs_edone))) [
    | inl e ↦ inl (rw e refl, ground arith)
    | inr e ↦
        inr (error_of_code b rc, rw e refl, error_of_code-decodes rc, ground arith, ground arith)
  ]

  -- Rules for the two kinds of code, for proofs that keep the function shut.
  pub return_code_to_result_done :
      {A : Type 0} (rc : ℕ) (val : A)
      → (rc ≡ 0) ⊎ (rc ≡ b.ble_hs_edone)
      → return_code_to_result b rc val ≡ ok val
  unfolding return_code_to_result
  return_code_to_result_done rc val h = ground arith

  pub return_code_to_result_failed :
      {A : Type 0} (rc : ℕ) (val : A)
      → rc ≢ 0
      → rc ≢ b.ble_hs_edone
      → return_code_to_result b rc val ≡ err (error_of_code b rc)
  unfolding return_code_to_result
  return_code_to_result_failed rc val h k = ground arith

  -- `return_code_to_result(rc, ()).map_err(wrap)`, spelled out.
  pub map_err-return_code_to_result :
      {A F : Type 0} (rc : ℕ) (val : A) (wrap : NimbleError → F)
      → map_err wrap (return_code_to_result b rc val)
        ≡ (if (rc == 0) || (rc == b.ble_hs_edone) then ok val else err (wrap (error_of_code b rc)))
  unfolding return_code_to_result
  map_err-return_code_to_result rc val wrap =
      elim (Bool-cases ((rc == 0) || (rc == b.ble_hs_edone))) [
        | inl e ↦ rw e refl
        | inr e ↦ rw e refl
      ]
