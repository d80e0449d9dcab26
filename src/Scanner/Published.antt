-- ===== src/Scanner/Published.antt =====
-- What the scanner of src/lib.rs publishes, against the conversion of src/data.rs that its readers use.
use esp_nimble_host.ReturnCode.Laws.{return_code_to_result-decodes, return_code_to_result_done}
use esp_nimble_host.Prelude.{
  zero, suc, ◌∷◌, [], suc, ℕ, ◌≡◌, ◌%◌, ◌≤◌, refl, ap, ◌⊎◌, inl, inr, some, List, arith, ok, ℤ,
  length, take, leb, Bool-cases, Option-cases,
}
use Prim.Native.String.{◌∷◌, String}
use esp_nimble_host.Platform.{Platform}
use esp_nimble_host.Operation.{returned}
use esp_nimble_host.Data.Advertisement.{
  HsAdvFields, RawAdvertisement, Advertisement, try_from, from, ble_hs_adv_parse_fields_slice,
}
use esp_nimble_host.Scanner.{
  GapDiscDesc, discovered, scan_event_handler, publish_parsed, publish_data, publish_adv,
  from_slice_255,
}

module _ (P : Platform) (text : List ℕ → String) (adv_parse_fields : List ℕ → ℕ × HsAdvFields) where
  open P use {bindings, Channel, publisher, publish_immediate, drop_publisher}

  take_all : (n : ℕ) (xs : List ℕ) → length xs ≤ n → take n xs ≡ xs
  take_all zero [] h = refl
  take_all zero (x ∷ xs) h = absurd (omega arith)
  take_all (suc n) [] h = refl
  take_all (suc n) (x ∷ xs) h = ap (λ ys. x ∷ ys) (take_all n xs (omega arith))

  whole : (bytes : List ℕ) → length bytes ≤ 255 → take (length bytes % 256) bytes ≡ bytes
  whole bytes h = take_all (length bytes % 256) bytes (omega arith)

  -- The advertisement that `try_from` makes of a report whose bytes parse.
  abbrev parsed : RawAdvertisement → Advertisement P text
  parsed adv = record {
    addr = adv.addr;
    rssi = adv.rssi;
    fields = from P text (adv_parse_fields adv.bytes).1;
  }

  try_from-parsed :
      (adv : RawAdvertisement) (rc : ℕ)
      → length adv.bytes ≤ 255
      → (adv_parse_fields adv.bytes).0 ≡ rc
      → (rc ≡ 0) ⊎ (rc ≡ bindings.ble_hs_edone)
      → try_from P text adv_parse_fields adv ≡ ok (parsed adv)
  unfolding try_from ble_hs_adv_parse_fields_slice
  try_from-parsed adv rc h e d =
      rw
        (
          whole adv.bytes h,
          e,
          return_code_to_result_done bindings rc (from P text (adv_parse_fields adv.bytes).1) d,
        )
        refl

  -- The report that the scanner makes of an event.
  abbrev pub report : GapDiscDesc → RawAdvertisement
  report disc = record {
    addr = disc.addr;
    rssi = disc.rssi;
    bytes = take disc.length_data disc.memory;
  }

  publish_data-report :
      (disc : GapDiscDesc) (c c' : Channel RawAdvertisement) (rc : ℤ)
      → publish_data P disc (from_slice_255 (take disc.length_data disc.memory)) c ≡ returned rc c'
      → (c' ≡ c)
        ⊎ ((c1 : Channel RawAdvertisement) × (c'
              ≡ drop_publisher RawAdvertisement
                  (publish_immediate RawAdvertisement (report disc) c1))
            × (length (report disc).bytes ≤ 255))
  unfolding publish_data publish_adv from_slice_255
  publish_data-report disc c c' rc h =
      let bytes = take disc.length_data disc.memory in
      elim (Bool-cases (leb (length bytes) 255)) [
        | inr k ↦ absurd (ground arith)
        | inl k ↦ elim (Option-cases (publisher RawAdvertisement c)) [
          | inl n ↦ inl (ground arith)
          | inr (c1, n) ↦ inr (c1, ground arith, ground arith)
        ]
      ]

  -- Whatever the scanner publishes for an event is a report that `try_from` converts, with the address
  -- and the signal strength of the event: a reader never gets a parse error.
  pub scan_event_handler-try_from :
      (disc : GapDiscDesc) (c c' : Channel RawAdvertisement) (rc : ℤ)
      → scan_event_handler P (λ bytes. (adv_parse_fields bytes).0) (some (discovered disc)) (some c)
        ≡ returned rc c'
      → (c' ≡ c)
        ⊎ ((c1 : Channel RawAdvertisement) × (adv : RawAdvertisement) × (a : Advertisement P text)
            × (c' ≡ drop_publisher RawAdvertisement (publish_immediate RawAdvertisement adv c1))
            × (try_from P text adv_parse_fields adv ≡ ok a)
            × (a.addr ≡ disc.addr)
            × (a.rssi ≡ disc.rssi))
  unfolding scan_event_handler publish_parsed
  scan_event_handler-try_from disc c c' rc h =
      let bytes = take disc.length_data disc.memory in
      let code = (adv_parse_fields bytes).0 in
      elim (return_code_to_result-decodes bindings code tt) [
        | inr (e, f, named, nonzero, unfinished) ↦ inl (ground arith)
        | inl (f, d) ↦ elim (publish_data-report disc c c' rc (ground arith)) [
          | inl same ↦ inl same
          | inr (c1, p, l) ↦ inr (
            c1,
            report disc,
            parsed (report disc),
            p,
            try_from-parsed (report disc) code l refl d,
            refl,
            refl,
          )
        ]
      ]
