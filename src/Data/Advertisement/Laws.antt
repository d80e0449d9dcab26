-- ===== src/Data/Advertisement/Laws.antt =====
-- The UUIDs of an advertisement against the conversion of a NimBLE UUID, both of src/data.rs.
use esp_nimble_host.Prelude.{
  lt→ltb, ltb, if◌then◌else◌, ◌^◌, zero, suc, take, ◌<◌, ℕ, ◌≡◌, refl, ap, ◌∙◌, Option, none, some,
  List, [], ◌∷◌, map, reverse, arith, ok, length, All,
}
use Prim.Native.String.{String}
use mathlib.Core.List.{reverse-reverse}
use esp_nimble_host.Platform.{Platform, UuidLaws}
use esp_nimble_host.Data.Uuid.{
  uuid32, uuid16, uuid_to_nimble_uuid, uuid_from_u16, nimble_uuid_to_uuid,
}
use esp_nimble_host.Data.Uuid.RoundTrip.{uuid_to_nimble_uuid_short, UuidTypes}
use esp_nimble_host.Data.Advertisement.{HsAdvFields, array, collect, from}

-- The first elements of the array behind a pointer, and nothing of a null one.
abbrev pub elements : {A : Type 0} → ℕ → Option (List A) → List A
elements n none = []
elements n (some xs) = take n xs

module _ {A B C : Type 0} (f : A → B) (g : B → C) (h : A → C) (P : A → Type 0) where
  map-agrees :
      ((x : A) → P x → g (f x) ≡ h x) → (xs : List A) → All P xs → map g (map f xs) ≡ map h xs
  map-agrees e [] a = refl
  map-agrees e (x ∷ xs) (p, ps) =
      ap (λ y. y ∷ map g (map f xs)) (e x p) ∙ ap (λ ys. h x ∷ ys) (map-agrees e xs ps)

  collect-agrees :
      ((x : A) → P x → g (f x) ≡ h x)
      → (n : ℕ) (o : Option (List A)) → All P (elements n o)
      → map g (collect f (array n o)) ≡ map h (elements n o)
  unfolding collect array
  collect-agrees e n none a = refl
  collect-agrees e zero (some xs) a = refl
  collect-agrees e (suc n) (some xs) a =
      rw (lt→ltb 0 (suc n) (omega arith)) (map-agrees e (take (suc n) xs) a)

module _ (P : Platform) (text : List ℕ → String) where
  open P use {bindings, Uuid, from_bytes, from_slice}

  module _ (laws : UuidLaws P) (types : UuidTypes bindings) where
    short_16 : (n : ℕ) → n < 2 ^ 16 → uuid_to_nimble_uuid P (uuid_from_u16 P n) ≡ uuid16 16 n
    unfolding uuid_from_u16
    short_16 n h = uuid_to_nimble_uuid_short P laws n (omega arith) ∙ ground arith

    any_128 :
        (bs : List ℕ)
        → length bs ≡ 16
        → ok (from_bytes bs)
          ≡ nimble_uuid_to_uuid P
              (record { type_ = 128; u16_value = 0; u32_value = 0; u128_value = reverse bs })
    unfolding nimble_uuid_to_uuid
    any_128 bs l =
        let s : from_slice (reverse (reverse bs)) ≡ some (from_bytes bs) =
          ap from_slice (reverse-reverse bs) ∙ laws.slice-from bs l in
        rw s (ground (arith, types.type_16, types.type_32, types.type_128))

    -- The UUIDs that an advertisement gives are one for each element of the arrays up to their
    -- counts, and none for a null pointer: `uuid_to_nimble_uuid` turns those of 16 bits back into
    -- the same numbers, and those of 32 bits into the narrowest form of the same numbers. The ones
    -- of 16 bytes are those that `nimble_uuid_to_uuid` makes of the bytes in the opposite order.
    pub from-nimble_uuid_to_uuid :
        (value : HsAdvFields)
        → All (λ n. n < 2 ^ 16) (elements value.num_uuids16 value.uuids16)
        → All (λ n. n < 2 ^ 32) (elements value.num_uuids32 value.uuids32)
        → All (λ bs. length bs ≡ 16) (elements value.num_uuids128 value.uuids128)
        → (map (uuid_to_nimble_uuid P) (from P text value).uuids16
            ≡ map (uuid16 16) (elements value.num_uuids16 value.uuids16))
          × (map (uuid_to_nimble_uuid P) (from P text value).uuids32
              ≡ map
                  (λ n. if ltb n (2 ^ 16) then uuid16 16 n else uuid32 32 n)
                  (elements value.num_uuids32 value.uuids32))
          × (map ok (from P text value).uuids128
              ≡ map
                  (λ bs.
                    nimble_uuid_to_uuid P (record {
                      type_ = 128;
                      u16_value = 0;
                      u32_value = 0;
                      u128_value = reverse bs;
                    }))
                  (elements value.num_uuids128 value.uuids128))
    unfolding from
    from-nimble_uuid_to_uuid value h16 h32 h128 = (
      collect-agrees _ _ _ _ short_16 _ _ h16,
      collect-agrees _ _ _ _ (uuid_to_nimble_uuid_short P laws) _ _ h32,
      collect-agrees _ _ _ _ any_128 _ _ h128,
    )
