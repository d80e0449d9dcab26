-- ===== src/Scanner/Tests.antt =====
-- The theorems on the scanner of src/lib.rs at concrete inputs.
use esp_nimble_host.Scanner.Published.{scan_event_handler-try_from, report}
use esp_nimble_host.ReturnCode.{return_code_to_result}
use Prim.Native.String.{String}
use esp_nimble_host.Prelude.{
  ok, none, ◌⊎◌, ℕ, ◌≡◌, refl, true, some, List, [], ◌∷◌, arith, ready, pos, negsuc,
}
use esp_nimble_host.Platform.{WaitResult}
use esp_nimble_host.Platform.Concrete.{platform, platform-ChannelLaws}
use esp_nimble_host.Operation.{returned}
use esp_nimble_host.Data.Advertisement.{try_from, Advertisement, HsAdvFields, RawAdvertisement}
use esp_nimble_host.Scanner.{
  BleGapDiscParams, GapDiscDesc, discovered, Scanner, default_params, scan_event_handler,
}
use esp_nimble_host.Scanner.Laws.{scan_event_handler-ready}

abbrev scanning : Scanner platform
scanning = record { adv_pub = []; scanning = true; params = default_params }

-- NimBLE refuses to scan.
abbrev refusing : ℕ → BleGapDiscParams → ℕ
refusing own_addr_type params = 15

abbrev beacon : GapDiscDesc
beacon = record {
  addr = record { type_ = 0; addr = 1 ∷ 2 ∷ 3 ∷ 4 ∷ 5 ∷ 6 ∷ [] };
  rssi = negsuc 60;
  memory = 2 ∷ 1 ∷ 6 ∷ 0 ∷ [];
  length_data = 3;
}

abbrev parses : List ℕ → ℕ
parses bytes = 0

-- What goes on the channel: three of the bytes that stand behind the pointer.
abbrev beacon_adv : RawAdvertisement
beacon_adv = record { addr = beacon.addr; rssi = beacon.rssi; bytes = 2 ∷ 1 ∷ 6 ∷ [] }

scan_event_handler-ready_example :
    (c' : List RawAdvertisement) × (r : WaitResult RawAdvertisement) × (platform.publisher
        RawAdvertisement []
      ≡ some c')
    × (scan_event_handler platform parses (some (discovered beacon)) (some [])
        ≡ returned (pos 0) (
            platform.drop_publisher RawAdvertisement
              (platform.publish_immediate RawAdvertisement beacon_adv c')))
    × ((platform.poll_message RawAdvertisement tt (
          platform.drop_publisher RawAdvertisement
            (platform.publish_immediate RawAdvertisement beacon_adv c'))).0
        ≡ ready r)
scan_event_handler-ready_example =
    scan_event_handler-ready platform platform-ChannelLaws parses beacon [] tt (omega arith) refl
      (λ e. ground arith)

abbrev nothing : HsAdvFields
nothing = record {
  flags = 6;
  uuids16 = none;
  num_uuids16 = 0;
  uuids32 = none;
  num_uuids32 = 0;
  uuids128 = none;
  num_uuids128 = 0;
  name = none;
  name_len = 0;
  mfg_data = none;
  mfg_data_len = 0;
}

abbrev text : List ℕ → String
text bytes = "name"

abbrev published : List RawAdvertisement
published = report platform text (λ bytes. (0, nothing)) beacon ∷ []

scan_event_handler_publishes :
    scan_event_handler platform (λ bytes. 0) (some (discovered beacon)) (some [])
    ≡ returned (pos 0) published
unfolding scan_event_handler return_code_to_result
scan_event_handler_publishes = refl

scan_event_handler-try_from_example :
    (published ≡ [])
    ⊎ ((c1 : List RawAdvertisement) × (adv : RawAdvertisement) × (a : Advertisement platform text)
        × (published
            ≡ platform.drop_publisher RawAdvertisement
                (platform.publish_immediate RawAdvertisement adv c1))
        × (try_from platform text (λ bytes. (0, nothing)) adv ≡ ok a)
        × (a.addr ≡ beacon.addr)
        × (a.rssi ≡ beacon.rssi))
scan_event_handler-try_from_example =
    scan_event_handler-try_from platform text (λ bytes. (0, nothing)) beacon [] published (pos 0)
      scan_event_handler_publishes
