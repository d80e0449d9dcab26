-- ===== src/Data/Advertisement/Tests.antt =====
-- The UUIDs of an advertisement of src/data.rs at a concrete one.
use esp_nimble_host.Prelude.{arith, ℕ, ◌≡◌, refl, some, none, List, [], ◌∷◌, map, reverse, ok}
use Prim.Native.String.{String}
use esp_nimble_host.Platform.Concrete.{nimble, platform, platform-UuidLaws}
use esp_nimble_host.Data.Uuid.{uuid16, uuid_to_nimble_uuid, nimble_uuid_to_uuid}
use esp_nimble_host.Data.Uuid.RoundTrip.{UuidTypes}
use esp_nimble_host.Data.Advertisement.{has_nul, device_name, HsAdvFields, array, from}
use esp_nimble_host.Data.Advertisement.Laws.{from-nimble_uuid_to_uuid}

abbrev text : List ℕ → String
text bytes = "name"

nimble-UuidTypes : UuidTypes nimble
nimble-UuidTypes = record { type_16 = refl; type_32 = refl; type_128 = refl }

abbrev long : List ℕ
long = 0 ∷ 1 ∷ 2 ∷ 3 ∷ 4 ∷ 5 ∷ 6 ∷ 7 ∷ 8 ∷ 9 ∷ 10 ∷ 11 ∷ 12 ∷ 13 ∷ 14 ∷ 15 ∷ []

-- Two services of 16 bits and one of 128, and a pointer to 32-bit ones with the count 0.
abbrev heart_rate : HsAdvFields
heart_rate = record {
  flags = 6;
  uuids16 = some (6157 ∷ 6159 ∷ []);
  num_uuids16 = 2;
  uuids32 = some (7 ∷ []);
  num_uuids32 = 0;
  uuids128 = some (long ∷ []);
  num_uuids128 = 1;
  name = some (72 ∷ 82 ∷ []);
  name_len = 2;
  mfg_data = none;
  mfg_data_len = 3;
}

from-nimble_uuid_to_uuid_example :
    (map (uuid_to_nimble_uuid platform) (from platform text heart_rate).uuids16
      ≡ uuid16 16 6157 ∷ uuid16 16 6159 ∷ [])
    × (map (uuid_to_nimble_uuid platform) (from platform text heart_rate).uuids32 ≡ [])
    × (map ok (from platform text heart_rate).uuids128
        ≡ nimble_uuid_to_uuid platform
            (record { type_ = 128; u16_value = 0; u32_value = 0; u128_value = reverse long })
          ∷ [])
from-nimble_uuid_to_uuid_example =
    from-nimble_uuid_to_uuid platform text platform-UuidLaws nimble-UuidTypes heart_rate
      (omega arith, (omega arith, tt)) tt (refl, tt)

device_name_example : (from platform text heart_rate).name ≡ some "name"
unfolding from array device_name has_nul
device_name_example = refl
