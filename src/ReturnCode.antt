-- ===== src/ReturnCode.antt =====
-- src/nimble_sys/mod.rs, `return_code_to_result`: what each NimBLE return code means. A `match` on
-- constants is a list of arms, of which the first that fits is taken.
pub mod Laws
pub mod Arms
mod Tests
use esp_nimble_host.Prelude.{ℕ, ◌-◌, List, [], ◌∷◌, ltb, ◌==◌, ◌||◌, if◌then◌else◌, ok, err}
use esp_nimble_host.Error.{NimbleError, NimbleResult}
use esp_nimble_host.Bindings.{Bindings}

abbrev pub Arms : Type 0
Arms = List (ℕ × NimbleError)

-- The first arm whose constant is the code, or else the arm `_`.
pub match_code : ℕ → Arms → NimbleError → NimbleError
match_code rc [] otherwise = otherwise
match_code rc ((code, e) ∷ arms) otherwise = if rc == code then e else match_code rc arms otherwise

module _ (b : Bindings) where
  -- Codes of the host itself, below `BLE_HS_ERR_ATT_BASE`.
  pub hs_arms : Arms
  hs_arms =
      (b.ble_hs_ealready, NimbleError.operation_in_progress)
      ∷ (b.ble_hs_ebusy, NimbleError.busy)
      ∷ (b.ble_hs_einval, NimbleError.invalid_argument)
      ∷ (b.ble_hs_emsgsize, NimbleError.message_size)
      ∷ (b.ble_hs_enoent, NimbleError.no_entry)
      ∷ (b.ble_hs_enomem, NimbleError.no_memory)
      ∷ (b.ble_hs_enotconn, NimbleError.not_connected)
      ∷ (b.ble_hs_enotsup, NimbleError.not_supported)
      ∷ (b.ble_hs_eapp, NimbleError.app_error)
      ∷ (b.ble_hs_ebaddata, NimbleError.bad_data)
      ∷ (b.ble_hs_eos, NimbleError.os_error)
      ∷ (b.ble_hs_econtroller, NimbleError.controller_error)
      ∷ (b.ble_hs_etimeout, NimbleError.timeout)
      ∷ (b.ble_hs_ereject, NimbleError.reject)
      ∷ (b.ble_hs_eunknown, NimbleError.unknown)
      ∷ (b.ble_hs_erole, NimbleError.role)
      ∷ (b.ble_hs_etimeout_hci, NimbleError.timeout_hci)
      ∷ (b.ble_hs_enomem_evt, NimbleError.no_mem_evt)
      ∷ (b.ble_hs_enoaddr, NimbleError.no_addr)
      ∷ (b.ble_hs_enotsynced, NimbleError.not_synced)
      ∷ (b.ble_hs_eauthen, NimbleError.authen)
      ∷ (b.ble_hs_eauthor, NimbleError.author)
      ∷ (b.ble_hs_eencrypt, NimbleError.encrypt)
      ∷ (b.ble_hs_eencrypt_key_sz, NimbleError.encrypt_key_size)
      ∷ (b.ble_hs_estore_cap, NimbleError.store_cap)
      ∷ (b.ble_hs_estore_fail, NimbleError.store_fail)
      ∷ []

  -- Attribute protocol errors, relative to `BLE_HS_ERR_ATT_BASE`.
  pub att_arms : Arms
  att_arms =
      (b.att_invalid_handle, NimbleError.att_invalid_handle)
      ∷ (b.att_read_not_permitted, NimbleError.att_read_not_permitted)
      ∷ (b.att_write_not_permitted, NimbleError.att_write_not_permitted)
      ∷ (b.att_invalid_pdu, NimbleError.att_invalid_pdu)
      ∷ (b.att_insufficient_authen, NimbleError.att_insufficient_authen)
      ∷ (b.att_req_not_supported, NimbleError.att_req_not_supported)
      ∷ (b.att_invalid_offset, NimbleError.att_invalid_offset)
      ∷ (b.att_insufficient_author, NimbleError.att_insufficient_author)
      ∷ (b.att_prepare_queue_full, NimbleError.att_prepare_queue_full)
      ∷ (b.att_attr_not_found, NimbleError.att_attr_not_found)
      ∷ (b.att_attr_not_long, NimbleError.att_attr_not_long)
      ∷ (b.att_insufficient_key_sz, NimbleError.att_insufficient_key_size)
      ∷ (b.att_invalid_attr_value_len, NimbleError.att_invalid_attr_value_len)
      ∷ (b.att_unlikely, NimbleError.att_unlikely)
      ∷ (b.att_insufficient_enc, NimbleError.att_insufficient_enc)
      ∷ (b.att_unsupported_group, NimbleError.att_unsupported_group)
      ∷ (b.att_insufficient_res, NimbleError.att_insufficient_res)
      ∷ []

  -- Controller errors, relative to `BLE_HS_ERR_HCI_BASE`.
  pub hci_arms : Arms
  hci_arms =
      (b.err_rem_user_conn_term, NimbleError.hci_conn_term_remote)
      ∷ (b.err_unknown_hci_cmd, NimbleError.hci_unknown_cmd)
      ∷ (b.err_unk_conn_id, NimbleError.hci_unknown_conn_id)
      ∷ (b.err_conn_term_local, NimbleError.hci_conn_term_local)
      ∷ (b.err_conn_establishment, NimbleError.hci_conn_establishment)
      ∷ []

  pub error_of_code : ℕ → NimbleError
  error_of_code rc =
      if ltb rc b.ble_hs_err_att_base
      then match_code rc hs_arms (NimbleError.other rc)
      else if ltb rc b.ble_hs_err_hci_base
      then match_code (rc - b.ble_hs_err_att_base) att_arms (NimbleError.other rc)
      else match_code (rc - b.ble_hs_err_hci_base) hci_arms (NimbleError.other rc)

  unfoldable pub return_code_to_result : {A : Type 0} → ℕ → A → NimbleResult A
  return_code_to_result rc val =
      if (rc == 0) || (rc == b.ble_hs_edone) then ok val else err (error_of_code rc)
