-- ===== src/Scanner.antt =====
-- `Scanner` and `scan_event_handler` of src/lib.rs, with the scan parameters of src/data.rs.
pub mod Laws
pub mod Published
pub mod Params
mod Tests
use esp_nimble_host.Prelude.{
  ℕ, Bool, true, false, Option, none, some, List, Result, ok, err, ℤ, pos, leb, if◌then◌else◌,
  length, take,
}
use esp_nimble_host.Error.{NimbleError, NimbleResult, ScanError, ScanResult, InternalError}
use esp_nimble_host.Platform.{Platform}
use esp_nimble_host.ReturnCode.{return_code_to_result}
use esp_nimble_host.Operation.{Outcome, fault, returned}
use esp_nimble_host.Data.Address.{BleAddr}
use esp_nimble_host.Data.Advertisement.{RawAdvertisement}

-- `BleGapDiscParams`.
pub record BleGapDiscParams : Type 0 where
  pub filter_policy : ℕ
  pub itvl : ℕ
  pub window : ℕ
  pub limited : Bool
  pub passive : Bool
  pub filter_duplicates : Bool

abbrev pub default_params : BleGapDiscParams
default_params = record {
  filter_policy = 0;
  itvl = 256;
  window = 80;
  limited = false;
  passive = true;
  filter_duplicates = false;
}

-- `ble_gap_disc_desc`; `memory` is what stands behind its data pointer.
pub record GapDiscDesc : Type 0 where
  pub addr : BleAddr
  pub rssi : ℤ
  pub memory : List ℕ
  pub length_data : ℕ

pub data ScanEvent : Type 0 where
  discovered : GapDiscDesc → ScanEvent
  ext_discovered disc_complete other_event : ScanEvent

-- `heapless::Vec::<u8, 255>::from_slice`.
pub from_slice_255 : List ℕ → Option (List ℕ)
from_slice_255 bytes = if leb (length bytes) 255 then some bytes else none

module _ (P : Platform) where
  open P use {
    bindings, Channel, Subscriber, new_channel, publisher, publish_immediate, drop_publisher,
    subscriber,
  }

  -- `Scanner` with its `ScannerInner`.
  pub record Scanner : Type 0 where
    pub adv_pub : Channel RawAdvertisement
    pub scanning : Bool
    pub params : BleGapDiscParams

  pub new_scanner : Scanner
  new_scanner = record {
    adv_pub = new_channel RawAdvertisement;
    scanning = false;
    params = default_params;
  }

  pub requested : Option BleGapDiscParams → BleGapDiscParams → BleGapDiscParams
  requested none current = current
  requested (some p) current = p

  start_scanned : Scanner → NimbleResult (Unit {0}) → ScanResult (Unit {0}) × Scanner
  start_scanned s (err e) = (err (ScanError.gap_disc_failed e), s)
  start_scanned s (ok _) = (ok tt, record s { scanning = true })

  -- `start_scan`: the result of the cancel is ignored. `ble_gap_disc` is the C function, by the own
  -- address type and the parameters.
  pub start_scan :
      (ble_gap_disc : ℕ → BleGapDiscParams → ℕ)
      → ℕ
      → Option BleGapDiscParams
      → Scanner
      → ScanResult (Unit {0}) × Scanner
  unfolding start_scanned requested
  start_scan ble_gap_disc own_addr_type params s =
      let used = requested params s.params in
      start_scanned (record s { scanning = false; params = used })
        (return_code_to_result bindings (ble_gap_disc own_addr_type used) tt)

  stop_scanned : Scanner → NimbleResult (Unit {0}) → ScanResult (Unit {0}) × Scanner
  stop_scanned s (err e) = (err (ScanError.gap_disc_cancel_failed e), s)
  stop_scanned s (ok _) = (ok tt, record s { scanning = false })

  -- `stop_scan`; `rc` is what `ble_gap_disc_cancel` returns.
  pub stop_scan : ℕ → Scanner → ScanResult (Unit {0}) × Scanner
  unfolding stop_scanned
  stop_scan rc s =
      if s.scanning then stop_scanned s (return_code_to_result bindings rc tt) else (ok tt, s)

  pub is_scanning : Scanner → Bool
  is_scanning s = s.scanning

  -- `subscribe`.
  subscribe : Scanner → Result Subscriber InternalError × Scanner
  subscribe s = elim (subscriber RawAdvertisement s.adv_pub) [
    | none ↦ (err InternalError.channel_closed, s)
    | some r ↦ (ok r.0, record s { adv_pub = r.1 })
  ]

  publish_adv :
      RawAdvertisement
      → Option (Channel RawAdvertisement)
      → Channel RawAdvertisement
      → Channel RawAdvertisement
  publish_adv adv none c = c
  publish_adv adv (some c') c =
      drop_publisher RawAdvertisement (publish_immediate RawAdvertisement adv c')

  publish_data :
      GapDiscDesc → Option (List ℕ) → Channel RawAdvertisement → Outcome (Channel RawAdvertisement)
  unfolding publish_adv
  publish_data disc none c = fault
  publish_data disc (some bytes) c = returned (pos 0) (
      publish_adv (record { addr = disc.addr; rssi = disc.rssi; bytes = bytes })
        (publisher RawAdvertisement c) c)

  publish_parsed :
      GapDiscDesc
      → NimbleResult (Unit {0})
      → Channel RawAdvertisement
      → Outcome (Channel RawAdvertisement)
  unfolding publish_data from_slice_255
  publish_parsed disc (err e) c = returned (pos 0) c
  publish_parsed disc (ok _) c =
      publish_data disc (from_slice_255 (take disc.length_data disc.memory)) c

  -- `scan_event_handler`: a null pointer panics. `adv_parse_fields` is the C function, by the data.
  pub scan_event_handler :
      (adv_parse_fields : List ℕ → ℕ)
      → Option ScanEvent
      → Option (Channel RawAdvertisement)
      → Outcome (Channel RawAdvertisement)
  unfolding publish_parsed
  scan_event_handler adv_parse_fields none arg = fault
  scan_event_handler adv_parse_fields (some event) none = fault
  scan_event_handler adv_parse_fields (some (discovered disc)) (some c) =
      publish_parsed disc
        (return_code_to_result bindings (adv_parse_fields (take disc.length_data disc.memory)) tt) c
  scan_event_handler adv_parse_fields (some ext_discovered) (some c) = returned (pos 0) c
  scan_event_handler adv_parse_fields (some disc_complete) (some c) = returned (pos 0) c
  scan_event_handler adv_parse_fields (some other_event) (some c) = returned (pos 0) c
