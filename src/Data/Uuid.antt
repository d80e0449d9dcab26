-- ===== src/Data/Uuid.antt =====
-- src/data.rs: 16, 32 and 128 bit UUIDs, and their conversions to and from NimBLE's.
pub mod Masks
pub mod RoundTrip
mod Tests
use esp_nimble_host.Prelude.{
  ℕ, ◌-◌, ◌*◌, ◌/◌, ◌%◌, ◌^◌, List, reverse, Result, ok, err, ok_or, ◌==◌, if◌then◌else◌,
}
use Prim.Native.Nat.{bit_and, bit_or}
use esp_nimble_host.Error.{DataError}
use esp_nimble_host.Platform.{Platform}

abbrev pub bluetooth_base_uuid : ℕ
bluetooth_base_uuid = 0x1000_8000_0080_5f9b_34fb

abbrev pub bluetooth_base_mask : ℕ
bluetooth_base_mask = 0xffff_ffff_ffff_ffff_ffff_ffff

abbrev pub bluetooth_base_mask_16 : ℕ
bluetooth_base_mask_16 = 0xffff_0000_ffff_ffff_ffff_ffff_ffff_ffff

-- `!m` on a `u128`.
abbrev pub not_u128 : ℕ → ℕ
not_u128 m = 2 ^ 128 - 1 - m

-- Each variant holds the `type_` of its header and its value.
pub data NimbleUuid : Type 0 where
  uuid16 uuid32 : ℕ → ℕ → NimbleUuid
  uuid128 : ℕ → List ℕ → NimbleUuid

-- `ble_uuid_any_t`: the header, and the union read in each of its three ways.
pub record UuidAny : Type 0 where
  pub type_ : ℕ
  pub u16_value : ℕ
  pub u32_value : ℕ
  pub u128_value : List ℕ

module _ (P : Platform) where
  open P use {bindings, Uuid, from_u128, as_u128, into_bytes, from_slice}

  pub uuid_from_u32 : ℕ → Uuid
  uuid_from_u32 short = from_u128 (bit_or bluetooth_base_uuid (short * 2 ^ 96 % 2 ^ 128))

  unfoldable pub uuid_from_u16 : ℕ → Uuid
  unfolding uuid_from_u32
  uuid_from_u16 short = uuid_from_u32 short

  pub uuid_to_nimble_uuid : Uuid → NimbleUuid
  uuid_to_nimble_uuid uuid =
      let value = as_u128 uuid in
      if bit_and value bluetooth_base_mask_16 == bluetooth_base_uuid
      then uuid16 16 (bit_and value (not_u128 bluetooth_base_mask_16) / 2 ^ 96 % 2 ^ 16)
      else if bit_and value bluetooth_base_mask == bluetooth_base_uuid
      then uuid32 32 (bit_and value (not_u128 bluetooth_base_mask) / 2 ^ 96 % 2 ^ 32)
      else uuid128 128 (reverse (into_bytes uuid))

  unfoldable pub nimble_uuid_to_uuid : UuidAny → Result Uuid DataError
  unfolding uuid_from_u16
  nimble_uuid_to_uuid uuid =
      if uuid.type_ == bindings.ble_uuid_type_16
      then ok (uuid_from_u16 uuid.u16_value)
      else if uuid.type_ == bindings.ble_uuid_type_32
      then ok (uuid_from_u32 uuid.u32_value)
      else if uuid.type_ == bindings.ble_uuid_type_128
      then ok_or DataError.uuid_conversion (from_slice (reverse uuid.u128_value))
      else err DataError.uuid_conversion
