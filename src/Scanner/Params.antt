-- ===== src/Scanner/Params.antt =====
-- The scan parameters of src/data.rs and their C struct, and `ble_gap_disc` of src/nimble_sys/gap.rs
-- that passes them on.
use esp_nimble_host.Prelude.{ℕ, ◌≡◌, refl, ◌<◌, Bool, true, false, not, ◌==◌, arith}
use esp_nimble_host.Bindings.{Bindings}
use esp_nimble_host.Error.{NimbleResult}
use esp_nimble_host.ReturnCode.{return_code_to_result}
use esp_nimble_host.Scanner.{BleGapDiscParams}

-- What bindgen generates for the bit fields of the struct.
pub record DiscBitfield : Type 1 where
  pub Bitfield : Type 0
  pub new_bitfield_1 : ℕ → ℕ → ℕ → Bitfield
  pub limited : Bitfield → ℕ
  pub passive : Bitfield → ℕ
  pub filter_duplicates : Bitfield → ℕ

-- A field of one bit gives back the bit that was put in.
pub record BitfieldLaws (B : DiscBitfield) : Type 0 where
  pub limited-new : (l p f : ℕ) → l < 2 → p < 2 → f < 2 → B.limited (B.new_bitfield_1 l p f) ≡ l
  pub passive-new : (l p f : ℕ) → l < 2 → p < 2 → f < 2 → B.passive (B.new_bitfield_1 l p f) ≡ p
  pub filter_duplicates-new :
      (l p f : ℕ) → l < 2 → p < 2 → f < 2 → B.filter_duplicates (B.new_bitfield_1 l p f) ≡ f

-- `bool as u8`.
as_u8 : Bool → ℕ
as_u8 true = 1
as_u8 false = 0

module _ (B : DiscBitfield) where
  -- `ble_gap_disc_params` of the bindings.
  pub record RawDiscParams : Type 0 where
    pub filter_policy : ℕ
    pub itvl : ℕ
    pub window : ℕ
    pub bitfield : B.Bitfield

  -- `From<&BleGapDiscParams> for ble_gap_disc_params`, and the one by value.
  pub raw_from : BleGapDiscParams → RawDiscParams
  unfolding as_u8
  raw_from val = record {
    filter_policy = val.filter_policy;
    itvl = val.itvl;
    window = val.window;
    bitfield =
        B.new_bitfield_1 (as_u8 val.limited) (as_u8 val.passive) (as_u8 val.filter_duplicates);
  }

  -- `From<ble_gap_disc_params> for BleGapDiscParams`.
  pub params_from : RawDiscParams → BleGapDiscParams
  params_from value = record {
    filter_policy = value.filter_policy;
    itvl = value.itvl;
    window = value.window;
    limited = not (B.limited value.bitfield == 0);
    passive = not (B.passive value.bitfield == 0);
    filter_duplicates = not (B.filter_duplicates value.bitfield == 0);
  }

  -- `ble_gap_disc`; `disc` is the C function, by the own address type, the duration and the
  -- parameters. The callback and its argument are the scanner's.
  pub ble_gap_disc :
      Bindings
      → (disc : ℕ → ℕ → RawDiscParams → ℕ) → ℕ
      → ℕ
      → BleGapDiscParams
      → NimbleResult (Unit {0})
  unfolding raw_from
  ble_gap_disc b disc own_addr_type duration_ms disc_params =
      return_code_to_result b (disc own_addr_type duration_ms (raw_from disc_params)) tt

  as_u8-bit : (x : Bool) → as_u8 x < 2
  unfolding as_u8
  as_u8-bit true = omega arith
  as_u8-bit false = omega arith

  as_u8-test : (x : Bool) → not (as_u8 x == 0) ≡ x
  unfolding as_u8
  as_u8-test true = refl
  as_u8-test false = refl

  -- The parameters survive the way through the C struct.
  pub params_from-raw_from :
      (laws : BitfieldLaws B) (p : BleGapDiscParams) → params_from (raw_from p) ≡ p
  unfolding params_from raw_from
  params_from-raw_from laws p =
      rw
        (
          laws.limited-new (as_u8 p.limited) (as_u8 p.passive) (as_u8 p.filter_duplicates)
              (as_u8-bit p.limited) (as_u8-bit p.passive) (as_u8-bit p.filter_duplicates),
          laws.passive-new (as_u8 p.limited) (as_u8 p.passive) (as_u8 p.filter_duplicates)
              (as_u8-bit p.limited) (as_u8-bit p.passive) (as_u8-bit p.filter_duplicates),
          laws.filter_duplicates-new (as_u8 p.limited) (as_u8 p.passive) (as_u8 p.filter_duplicates)
              (as_u8-bit p.limited) (as_u8-bit p.passive) (as_u8-bit p.filter_duplicates),
          as_u8-test p.limited,
          as_u8-test p.passive,
          as_u8-test p.filter_duplicates,
        )
        refl
