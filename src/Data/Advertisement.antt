-- ===== src/Data/Advertisement.antt =====
-- src/data.rs: advertisements, and their fields as read from what NimBLE parsed.
pub mod Laws
mod Tests
use esp_nimble_host.ReturnCode.{return_code_to_result}
use esp_nimble_host.Data.Address.{BleAddr}
use esp_nimble_host.Error.{DataError, NimbleResult}
use esp_nimble_host.Prelude.{
  ok, map_err, ◌%◌, length, ℤ, Result, false, ℕ, ◌≡◌, ◌>>=◌, Bool, Option, none, some, List, [],
  ◌∷◌, map, ltb, ◌==◌, if◌then◌else◌, take, ◌||◌,
}
use Prim.Native.String.{String}
use esp_nimble_host.Platform.{Platform}
use esp_nimble_host.Data.Uuid.{uuid_from_u16, uuid_from_u32}

pub record RawAdvertisement : Type 0 where
  pub addr : BleAddr
  pub rssi : ℤ
  pub bytes : List ℕ

-- `ble_hs_adv_fields`, its fields that the code reads. A pointer is the array that it points to, or
-- `none` when it is null.
pub record HsAdvFields : Type 0 where
  pub flags : ℕ
  pub uuids16 : Option (List ℕ)
  pub num_uuids16 : ℕ
  pub uuids32 : Option (List ℕ)
  pub num_uuids32 : ℕ
  pub uuids128 : Option (List (List ℕ))
  pub num_uuids128 : ℕ
  pub name : Option (List ℕ)
  pub name_len : ℕ
  pub mfg_data : Option (List ℕ)
  pub mfg_data_len : ℕ

pub record HostAdvertisementFields (Uuid : Type 0) : Type 0 where
  pub flags : ℕ
  pub uuids16 : List Uuid
  pub uuids32 : List Uuid
  pub uuids128 : List Uuid
  pub name : Option String
  pub manufacturer_data : List ℕ

-- `from_raw_parts` behind the tests for an empty array and for a null pointer.
pub array {ℓ} : {A : Type ℓ} → ℕ → Option (List A) → Option (List A)
array n none = none
array n (some xs) = if ltb 0 n then some (take n xs) else none

pub collect {ℓ ℓ'} : {A : Type ℓ} {B : Type ℓ'} → (A → B) → Option (List A) → List B
collect f none = []
collect f (some xs) = map f xs

pub has_nul : List ℕ → Bool
has_nul [] = false
has_nul (c ∷ cs) = c == 0 || has_nul cs

-- `CString::new` and `to_string_lossy`, which `text` is.
pub device_name : (List ℕ → String) → Option (List ℕ) → Option String
device_name text none = none
device_name text (some bytes) = if has_nul bytes then none else some (text bytes)

module _ (P : Platform) (text : List ℕ → String) where
  open P use {bindings, Uuid, from_bytes}

  pub from : HsAdvFields → HostAdvertisementFields Uuid
  from value = record {
    flags = value.flags;
    uuids16 = collect (uuid_from_u16 P) (array value.num_uuids16 value.uuids16);
    uuids32 = collect (uuid_from_u32 P) (array value.num_uuids32 value.uuids32);
    uuids128 = collect from_bytes (array value.num_uuids128 value.uuids128);
    name = device_name text (array value.name_len value.name);
    manufacturer_data = collect (λ c. c) (array value.mfg_data_len value.mfg_data);
  }

  -- `Advertisement`
  pub record Advertisement : Type 0 where
    pub addr : BleAddr
    pub rssi : ℤ
    pub fields : HostAdvertisementFields Uuid

  -- `ble_hs_adv_parse_fields_slice` of src/nimble_sys/host.rs. `adv_parse_fields` is the C function,
  -- by the bytes that the length, which wraps at 256, gives it: its code and what it wrote.
  unfoldable pub ble_hs_adv_parse_fields_slice :
      (List ℕ → ℕ × HsAdvFields) → List ℕ → NimbleResult (HostAdvertisementFields Uuid)
  ble_hs_adv_parse_fields_slice adv_parse_fields bytes =
      let (ret, fields) = adv_parse_fields (take (length bytes % 256) bytes) in
      return_code_to_result bindings ret (from fields)

  unfoldable pub try_from :
      (List ℕ → ℕ × HsAdvFields) → RawAdvertisement → Result Advertisement DataError
  unfolding ble_hs_adv_parse_fields_slice
  try_from adv_parse_fields value = do
    fields ←
        map_err DataError.adv_parse_fields
          (ble_hs_adv_parse_fields_slice adv_parse_fields value.bytes)
    ok (record { addr = value.addr; rssi = value.rssi; fields = fields })
