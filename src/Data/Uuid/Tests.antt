-- ===== src/Data/Uuid/Tests.antt =====
-- The theorems on UUIDs of src/data.rs at concrete ones.
use esp_nimble_host.Prelude.{◌≡◌, refl, [], arith, ok}
use esp_nimble_host.Platform.Concrete.{nimble, platform, platform-UuidLaws}
use esp_nimble_host.Data.Uuid.{UuidAny, uuid_from_u32, uuid_to_nimble_uuid, nimble_uuid_to_uuid}
use esp_nimble_host.Data.Uuid.RoundTrip.{
  UuidTypes, Views, uuid_to_nimble_uuid_short, nimble_uuid_to_uuid-uuid_to_nimble_uuid,
}

nimble-UuidTypes : UuidTypes nimble
nimble-UuidTypes = record { type_16 = refl; type_32 = refl; type_128 = refl }

-- The heart rate service, 0x180d.
abbrev heart_rate : platform.Uuid
heart_rate = uuid_from_u32 platform 6157

-- What C reads behind the pointer.
abbrev view : UuidAny
view = record { type_ = 16; u16_value = 6157; u32_value = 0; u128_value = [] }

view-Views : Views (uuid_to_nimble_uuid platform heart_rate) view
view-Views =
    rw (uuid_to_nimble_uuid_short platform platform-UuidLaws 6157 (omega arith)) (refl, refl)

nimble_uuid_to_uuid-uuid_to_nimble_uuid_example : nimble_uuid_to_uuid platform view ≡ ok heart_rate
nimble_uuid_to_uuid-uuid_to_nimble_uuid_example =
    nimble_uuid_to_uuid-uuid_to_nimble_uuid platform platform-UuidLaws nimble-UuidTypes heart_rate
      view view-Views
