-- ===== src/Data/Uuid/RoundTrip.antt =====
-- The UUID conversions of src/data.rs, there and back, and the form that they pick.
use esp_nimble_host.Prelude.{
  ℕ, ◌+◌, ◌*◌, ◌/◌, ◌%◌, ◌^◌, ◌<◌, ◌≡◌, ap, ◌∙◌, subst, inl, inr, some, reverse, arith, ok, ltb,
  ◌==◌, if◌then◌else◌, Bool-cases, ==_iff,
}
use Prim.Native.Nat.{bit_or}
use mathlib.Core.List.{reverse-reverse}
use esp_nimble_host.Bindings.{Bindings}
use esp_nimble_host.Platform.{Platform, UuidLaws}
use esp_nimble_host.Data.Uuid.{
  bluetooth_base_uuid, NimbleUuid, uuid16, uuid32, uuid128, UuidAny, uuid_from_u32, uuid_from_u16,
  uuid_to_nimble_uuid, nimble_uuid_to_uuid,
}
use esp_nimble_host.Data.Uuid.Masks.{base_or, and_mask, and_not_mask, and_mask_16, and_not_mask_16}

-- The values of NimBLE's `BLE_UUID_TYPE_*`, which are widths in bits.
pub record UuidTypes (b : Bindings) : Type 0 where
  pub type_16 : b.ble_uuid_type_16 ≡ 16
  pub type_32 : b.ble_uuid_type_32 ≡ 32
  pub type_128 : b.ble_uuid_type_128 ≡ 128

-- `a` is what C reads behind a pointer to this UUID.
abbrev pub Views : NimbleUuid → UuidAny → Type 0
Views (uuid16 t v) a = (a.type_ ≡ t) × (a.u16_value ≡ v)
Views (uuid32 t v) a = (a.type_ ≡ t) × (a.u32_value ≡ v)
Views (uuid128 t v) a = (a.type_ ≡ t) × (a.u128_value ≡ v)

-- The 128-bit number of a short UUID.
abbrev pub expand : ℕ → ℕ
expand short = short * 2 ^ 96 + bluetooth_base_uuid

module _ (P : Platform) where
  open P use {bindings, Uuid, from_u128, as_u128, from_bytes, into_bytes, from_slice}

  uuid_from_u32-expand :
      (short : ℕ) → short < 2 ^ 32 → uuid_from_u32 P short ≡ from_u128 (expand short)
  unfolding uuid_from_u32
  uuid_from_u32-expand short h = ap from_u128 (
      ap (λ (t : ℕ). bit_or bluetooth_base_uuid t)
        (let e : short * 2 ^ 96 % 2 ^ 128 ≡ short * 2 ^ 96 = omega arith in e)
      ∙ base_or short)

  -- Which form is taken, by the number.
  pub narrowest : ℕ → Uuid → NimbleUuid
  narrowest v uuid =
      if v % 2 ^ 96 == bluetooth_base_uuid
      then (if ltb (v / 2 ^ 96) (2 ^ 16) then uuid16 16 (v / 2 ^ 96) else uuid32 32 (v / 2 ^ 96))
      else uuid128 128 (reverse (into_bytes uuid))

  -- `uuid_to_nimble_uuid` takes a short form exactly when the low 96 bits are those of the Bluetooth
  -- base UUID, and the 16-bit one exactly when the high 32 bits fit.
  pub uuid_to_nimble_uuid-narrowest :
      (laws : UuidLaws P) (uuid : Uuid) → uuid_to_nimble_uuid P uuid ≡ narrowest (as_u128 uuid) uuid
  unfolding uuid_to_nimble_uuid narrowest
  uuid_to_nimble_uuid-narrowest laws uuid =
      let v = as_u128 uuid in
      let h : v < 2 ^ 128 = laws.as-lt uuid in
      ground (arith, and_mask v h, and_not_mask v h, and_mask_16 v h, and_not_mask_16 v h)

  short_back :
      (laws : UuidLaws P) (uuid : Uuid)
      → as_u128 uuid % 2 ^ 96 ≡ bluetooth_base_uuid
      → uuid_from_u32 P (as_u128 uuid / 2 ^ 96) ≡ uuid
  short_back laws uuid e =
      let h = laws.as-lt uuid in
      uuid_from_u32-expand (as_u128 uuid / 2 ^ 96) (omega arith)
      ∙ ap from_u128 (let k : expand (as_u128 uuid / 2 ^ 96) ≡ as_u128 uuid = omega arith in k)
      ∙ laws.from-as uuid

  long_back :
      (laws : UuidLaws P) (uuid : Uuid)
      → from_slice (reverse (reverse (into_bytes uuid))) ≡ some uuid
  long_back laws uuid =
      ap from_slice (reverse-reverse (into_bytes uuid))
      ∙ laws.slice-from (into_bytes uuid) (laws.length-into uuid)
      ∙ ap (λ u. some u) (laws.from-into uuid)

  narrowest_back :
      (laws : UuidLaws P) (types : UuidTypes bindings) (uuid : Uuid) (a : UuidAny)
      → Views (narrowest (as_u128 uuid) uuid) a
      → nimble_uuid_to_uuid P a ≡ ok uuid
  unfolding narrowest nimble_uuid_to_uuid uuid_from_u16
  narrowest_back laws types uuid a w =
      elim (Bool-cases (as_u128 uuid % 2 ^ 96 == bluetooth_base_uuid)) [
        | inl e ↦
            ground (arith, types.type_16, types.type_32, short_back laws uuid ((==_iff _ _).0 e))
        | inr e ↦ ground (arith, types.type_16, types.type_32, types.type_128, long_back laws uuid)
      ]

  -- A UUID that is turned into NimBLE's form and read back is the same UUID, in whichever of the
  -- three forms it went.
  pub nimble_uuid_to_uuid-uuid_to_nimble_uuid :
      (laws : UuidLaws P) (types : UuidTypes bindings) (uuid : Uuid) (a : UuidAny)
      → Views (uuid_to_nimble_uuid P uuid) a
      → nimble_uuid_to_uuid P a ≡ ok uuid
  nimble_uuid_to_uuid-uuid_to_nimble_uuid laws types uuid a w =
      narrowest_back laws types uuid a
        (subst (λ n. Views n a) (uuid_to_nimble_uuid-narrowest laws uuid) w)

  -- A UUID made of a short one of 32 bits goes out in the narrowest form that holds it.
  pub uuid_to_nimble_uuid_short :
      (laws : UuidLaws P) (short : ℕ)
      → short < 2 ^ 32
      → uuid_to_nimble_uuid P (uuid_from_u32 P short)
        ≡ (if ltb short (2 ^ 16) then uuid16 16 short else uuid32 32 short)
  unfolding narrowest
  uuid_to_nimble_uuid_short laws short h =
      let n : expand short < 2 ^ 128 = omega arith in
      uuid_to_nimble_uuid-narrowest laws (uuid_from_u32 P short)
      ∙ ap (λ (t : ℕ). narrowest t (uuid_from_u32 P short))
          (ap as_u128 (uuid_from_u32-expand short h) ∙ laws.as-from (expand short) n)
      ∙ ground arith
