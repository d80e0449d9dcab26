-- ===== src/Scanner/Laws.antt =====
-- What the scanner's flag says, and which advertisements reach a subscriber.
use esp_nimble_host.ReturnCode.Laws.{return_code_to_result_done}
use esp_nimble_host.Prelude.{
  ℕ, ◌≤◌, ◌≡◌, refl, sym, ap, ◌∙◌, ◌≢◌, inl, inr, Bool, true, false, Option, none, some, List,
  arith, ok, err, ready, pos, length, take, Bool-cases, Option-cases, le→leb, length-take,
}
use esp_nimble_host.Error.{NimbleResult, ScanResult}
use esp_nimble_host.Platform.{Platform, ChannelLaws, WaitResult}
use esp_nimble_host.ReturnCode.{return_code_to_result}
use esp_nimble_host.Operation.{returned}
use esp_nimble_host.Data.Advertisement.{RawAdvertisement}
use esp_nimble_host.Scanner.{
  publish_adv, publish_data, publish_parsed, stop_scanned, start_scanned, BleGapDiscParams,
  GapDiscDesc, discovered, Scanner, requested, start_scan, stop_scan, scan_event_handler,
  from_slice_255,
}

pub succeeded : ScanResult (Unit {0}) → Bool
succeeded (ok _) = true
succeeded (err e) = false

module _ (P : Platform) where
  open P use {
    bindings, Channel, Subscriber, publisher, publish_immediate, drop_publisher, poll_message,
  }

  start_scanned-succeeded :
      (s : Scanner P) (r : NimbleResult (Unit {0}))
      → s.scanning ≡ false
      → (((start_scanned P s r).1).scanning ≡ succeeded (start_scanned P s r).0)
        × (((start_scanned P s r).1).params ≡ s.params)
  unfolding start_scanned succeeded
  start_scanned-succeeded s (ok _) h = (refl, refl)
  start_scanned-succeeded s (err e) h = (h, refl)

  -- After `start_scan` the scanner is scanning exactly when the call succeeded, whatever it did
  -- before, and it has the parameters that were asked for, or its old ones.
  pub start_scan-succeeded :
      (ble_gap_disc : ℕ → BleGapDiscParams → ℕ) (own_addr_type : ℕ)
      (params : Option BleGapDiscParams) (s : Scanner P)
      → (((start_scan P ble_gap_disc own_addr_type params s).1).scanning
          ≡ succeeded (start_scan P ble_gap_disc own_addr_type params s).0)
        × (((start_scan P ble_gap_disc own_addr_type params s).1).params
            ≡ requested P params s.params)
  unfolding start_scan
  start_scan-succeeded ble_gap_disc own_addr_type params s =
      start_scanned-succeeded (record s { scanning = false; params = requested P params s.params })
        _ refl

  stop_scanned-stop_scan :
      (s : Scanner P) (r : NimbleResult (Unit {0})) (rc : ℕ)
      → (stop_scanned P s r).0 ≡ ok tt
      → stop_scan P rc (stop_scanned P s r).1 ≡ (ok tt, (stop_scanned P s r).1)
  unfolding stop_scanned stop_scan
  stop_scanned-stop_scan s (ok _) rc h = refl
  stop_scanned-stop_scan s (err e) rc h = cc

  stop_scan-scanning :
      (s : Scanner P) (rc : ℕ)
      → s.scanning ≡ true
      → stop_scan P rc s ≡ stop_scanned P s (return_code_to_result bindings rc tt)
  unfolding stop_scan
  stop_scan-scanning s rc e = rw e refl

  stop_scan_idle : (s : Scanner P) (rc : ℕ) → s.scanning ≡ false → stop_scan P rc s ≡ (ok tt, s)
  unfolding stop_scan
  stop_scan_idle s rc e = rw e refl

  -- Once `stop_scan` succeeded, another one succeeds and changes nothing, whatever NimBLE would say.
  pub stop_scan-stop_scan :
      (s : Scanner P) (rc rc' : ℕ)
      → (stop_scan P rc s).0 ≡ ok tt
      → stop_scan P rc' (stop_scan P rc s).1 ≡ (ok tt, (stop_scan P rc s).1)
  stop_scan-stop_scan s rc rc' h = elim (Bool-cases s.scanning) [
    | inl e ↦
        (let q = stop_scan-scanning s rc e in
          rw q (stop_scanned-stop_scan s _ rc' (ap (λ r. r.0) (sym q) ∙ h)))
    | inr e ↦ rw (stop_scan_idle s rc e) (stop_scan_idle s rc' e)
  ]

  -- An advertisement of at most 255 bytes that NimBLE can parse is put on the scanner's channel,
  -- with its address, its signal strength and exactly the bytes that NimBLE gave, and every
  -- subscriber of the channel then has a message to read. The handler returns 0 and does not
  -- panic. A publisher is free.
  pub scan_event_handler-ready :
      (laws : ChannelLaws P) (adv_parse_fields : List ℕ → ℕ) (disc : GapDiscDesc)
      (c : Channel RawAdvertisement) (s : Subscriber)
      → disc.length_data ≤ 255
      → adv_parse_fields (take disc.length_data disc.memory) ≡ 0
      → publisher RawAdvertisement c ≢ none
      → (c' : Channel RawAdvertisement) × (r : WaitResult RawAdvertisement) × (publisher
            RawAdvertisement c
          ≡ some c')
        × (scan_event_handler P adv_parse_fields (some (discovered disc)) (some c)
            ≡ returned (pos 0) (
                drop_publisher RawAdvertisement (
                  publish_immediate RawAdvertisement
                    (record {
                      addr = disc.addr;
                      rssi = disc.rssi;
                      bytes = take disc.length_data disc.memory;
                    })
                    c')))
        × ((poll_message RawAdvertisement s (
              drop_publisher RawAdvertisement (
                publish_immediate RawAdvertisement
                  (record {
                    addr = disc.addr;
                    rssi = disc.rssi;
                    bytes = take disc.length_data disc.memory;
                  })
                  c'))).0
            ≡ ready r)
  unfolding scan_event_handler publish_parsed publish_data publish_adv from_slice_255
  scan_event_handler-ready laws adv_parse_fields disc c s l e h =
      let bytes = take disc.length_data disc.memory in
      let k =
        le→leb (length bytes) 255 (omega (arith, length-take disc.length_data disc.memory, l)) in
      let adv : RawAdvertisement = (record { addr = disc.addr; rssi = disc.rssi; bytes = bytes }) in
      elim (Option-cases (publisher RawAdvertisement c)) [
        | inl n ↦ absurd (h n)
        | inr (c1, n) ↦
            (let c2 =
                P.drop_publisher RawAdvertisement (P.publish_immediate RawAdvertisement adv c1) in
              let (r, q) = laws.poll-unread RawAdvertisement s c2 (λ u.
                laws.unread-publish RawAdvertisement s adv c1
                  (sym (laws.unread-drop RawAdvertisement s _) ∙ u)) in
              (c1, r, n, rw (e, return_code_to_result_done bindings 0 tt (inl refl), k, n) refl, q))
      ]
