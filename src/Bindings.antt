-- ===== src/Bindings.antt =====
-- The constants that bindgen takes from the NimBLE headers (src/nimble_sys/mod.rs, `bindings`).
-- They are not part of the repository, so the development takes them as a record.
use esp_nimble_host.Prelude.{ℕ}

pub record Bindings : Type 0 where
  pub ble_hs_ealready : ℕ
  pub ble_hs_einval : ℕ
  pub ble_hs_emsgsize : ℕ
  pub ble_hs_enoent : ℕ
  pub ble_hs_enomem : ℕ
  pub ble_hs_enotconn : ℕ
  pub ble_hs_enotsup : ℕ
  pub ble_hs_eapp : ℕ
  pub ble_hs_ebaddata : ℕ
  pub ble_hs_eos : ℕ
  pub ble_hs_econtroller : ℕ
  pub ble_hs_etimeout : ℕ
  pub ble_hs_edone : ℕ
  pub ble_hs_ebusy : ℕ
  pub ble_hs_ereject : ℕ
  pub ble_hs_eunknown : ℕ
  pub ble_hs_erole : ℕ
  pub ble_hs_etimeout_hci : ℕ
  pub ble_hs_enomem_evt : ℕ
  pub ble_hs_enoaddr : ℕ
  pub ble_hs_enotsynced : ℕ
  pub ble_hs_eauthen : ℕ
  pub ble_hs_eauthor : ℕ
  pub ble_hs_eencrypt : ℕ
  pub ble_hs_eencrypt_key_sz : ℕ
  pub ble_hs_estore_cap : ℕ
  pub ble_hs_estore_fail : ℕ
  pub ble_hs_eagain : ℕ
  pub ble_hs_err_att_base : ℕ
  pub ble_hs_err_hci_base : ℕ
  pub att_invalid_handle : ℕ
  pub att_read_not_permitted : ℕ
  pub att_write_not_permitted : ℕ
  pub att_invalid_pdu : ℕ
  pub att_insufficient_authen : ℕ
  pub att_req_not_supported : ℕ
  pub att_invalid_offset : ℕ
  pub att_insufficient_author : ℕ
  pub att_prepare_queue_full : ℕ
  pub att_attr_not_found : ℕ
  pub att_attr_not_long : ℕ
  pub att_insufficient_key_sz : ℕ
  pub att_invalid_attr_value_len : ℕ
  pub att_unlikely : ℕ
  pub att_insufficient_enc : ℕ
  pub att_unsupported_group : ℕ
  pub att_insufficient_res : ℕ
  pub err_unknown_hci_cmd : ℕ
  pub err_unk_conn_id : ℕ
  pub err_conn_term_local : ℕ
  pub err_rem_user_conn_term : ℕ
  pub err_conn_establishment : ℕ
  pub ble_uuid_type_16 : ℕ
  pub ble_uuid_type_32 : ℕ
  pub ble_uuid_type_128 : ℕ
  pub ble_sm_ioact_input : ℕ
  pub ble_sm_ioact_disp : ℕ
  pub ble_gap_repeat_pairing_ignore : ℕ
  pub ble_transport_evt_size : ℕ
