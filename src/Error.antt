-- ===== src/Error.antt =====
-- src/error.rs and the error enum of src/nimble_sys/mod.rs: the errors of the crate as data types.
use esp_nimble_host.Prelude.{ℕ, Result}
use Prim.Native.String.{String}

-- `NimbleError`.
pub data NimbleError : Type 0 where
  operation_in_progress busy invalid_argument message_size no_entry no_memory : NimbleError
  not_connected not_supported app_error bad_data os_error controller_error : NimbleError
  timeout reject unknown role timeout_hci no_mem_evt no_addr not_synced : NimbleError
  authen author encrypt encrypt_key_size store_cap store_fail : NimbleError
  att_invalid_handle att_read_not_permitted att_write_not_permitted : NimbleError
  att_invalid_pdu att_insufficient_authen att_req_not_supported : NimbleError
  att_invalid_offset att_insufficient_author att_prepare_queue_full : NimbleError
  att_attr_not_found att_attr_not_long att_insufficient_key_size : NimbleError
  att_invalid_attr_value_len att_unlikely att_insufficient_enc : NimbleError
  att_unsupported_group att_insufficient_res : NimbleError
  hci_unknown_cmd hci_unknown_conn_id hci_conn_term_local : NimbleError
  hci_conn_term_remote hci_conn_establishment : NimbleError
  att_mtu_zero : ℕ → NimbleError
  mbuf_creation_failed : NimbleError
  c_string_conversion_failed : String → NimbleError
  other : ℕ → NimbleError

abbrev pub NimbleResult : Type 0 → Type 0
NimbleResult A = Result A NimbleError

pub data ScanError : Type 0 where
  gap_disc_failed gap_disc_cancel_failed : NimbleError → ScanError

pub data ConnectError : Type 0 where
  gap_connect_failed : NimbleError → ConnectError
  timeout : ConnectError
  disconnect_failed : NimbleError → ConnectError
  disconnected_while_operation not_connected : ConnectError

-- The texts of the two variants that carry one are for the reader of a log only.
pub data DataError : Type 0 where
  ble_addr_conversion uuid_conversion invalid_argument : DataError
  adv_parse_fields : NimbleError → DataError

pub data GattError : Type 0 where
  not_connected : GattError
  read_failed write_failed : NimbleError → GattError
  no_data : GattError
  mtu_exchange_failed : NimbleError → GattError
  att_mtu_zero : ℕ → GattError
  mbuf_creation_failed : GattError
  service_discovery_failed : NimbleError → GattError
  no_services_discovered : GattError
  characteristic_discovery_failed : NimbleError → GattError
  no_characteristics_discovered : GattError
  descriptor_discovery_failed : NimbleError → GattError
  no_descriptors_discovered disconnected_while_operation : GattError
  data_error : DataError → GattError

pub data PairError : Type 0 where
  not_connected : PairError
  initiate_failed : NimbleError → PairError
  pairing_failed : ℕ → PairError
  disconnected_while_operation : PairError

pub data InternalError : Type 0 where
  channel_closed : InternalError

-- `Error`, and its `From` instances.
data Error : Type 0 where
  scan : ScanError → Error
  connect : ConnectError → Error
  gatt : GattError → Error
  pair : PairError → Error
  data_ : DataError → Error
  internal : InternalError → Error

abbrev from_scan_error : ScanError → Error
from_scan_error e = scan e

abbrev from_connect_error : ConnectError → Error
from_connect_error e = connect e

abbrev from_gatt_error : GattError → Error
from_gatt_error e = gatt e

abbrev from_data_error : DataError → Error
from_data_error e = data_ e

abbrev from_pair_error : PairError → Error
from_pair_error e = pair e

abbrev from_internal_error : InternalError → Error
from_internal_error e = internal e

abbrev pub ScanResult : Type 0 → Type 0
ScanResult A = Result A ScanError

abbrev pub ConnectResult : Type 0 → Type 0
ConnectResult A = Result A ConnectError

abbrev pub GattResult : Type 0 → Type 0
GattResult A = Result A GattError

abbrev pub PairResult : Type 0 → Type 0
PairResult A = Result A PairError
