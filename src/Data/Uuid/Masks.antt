-- ===== src/Data/Uuid/Masks.antt =====
-- The masks of src/data.rs as arithmetic on a `u128`.
use esp_nimble_host.Prelude.{ℕ, ◌+◌, ◌-◌, ◌*◌, ◌/◌, ◌%◌, ◌^◌, ◌<◌, ◌≡◌, sym, ap, ◌∙◌, arith}
use Prim.Native.Nat.{bit_and, bit_or}
use esp_nimble_host.Prelude.Bits.{
  bit_and-fields, bit_or-fields, bit_and_ones, bit_and-zero, zero-bit_or,
}
use esp_nimble_host.Data.Uuid.{
  bluetooth_base_uuid, bluetooth_base_mask, bluetooth_base_mask_16, not_u128,
}

-- The base UUID with a short UUID in its upper 32 bits.
pub base_or : (x : ℕ) → bit_or bluetooth_base_uuid (x * 2 ^ 96) ≡ x * 2 ^ 96 + bluetooth_base_uuid
base_or x = omega (
  arith,
  bit_or-fields 96 0 bluetooth_base_uuid x 0 (omega arith) (omega arith),
  zero-bit_or x,
  ap (λ (t : ℕ). bit_or bluetooth_base_uuid t)
      (let e : x * 2 ^ 96 + 0 ≡ x * 2 ^ 96 = omega arith in e),
)

module _ (v : ℕ) (h : v < 2 ^ 128) where
  split : v / 2 ^ 96 * 2 ^ 96 + v % 2 ^ 96 ≡ v
  split = omega arith

  and_fields :
      (m s : ℕ)
      → s < 2 ^ 96
      → bit_and v (m * 2 ^ 96 + s) ≡ bit_and (v / 2 ^ 96) m * 2 ^ 96 + bit_and (v % 2 ^ 96) s
  and_fields m s k =
      ap (λ (t : ℕ). bit_and t (m * 2 ^ 96 + s)) (sym split)
      ∙ bit_and-fields 96 (v / 2 ^ 96) (v % 2 ^ 96) m s (omega arith) k

  pub and_mask : bit_and v bluetooth_base_mask ≡ v % 2 ^ 96
  and_mask = omega (
    arith,
    and_fields 0 (2 ^ 96 - 1) (omega arith),
    bit_and-zero 32 (v / 2 ^ 96) (omega arith),
    bit_and_ones 96 (v % 2 ^ 96) (omega arith),
  )

  pub and_not_mask : bit_and v (not_u128 bluetooth_base_mask) ≡ v / 2 ^ 96 * 2 ^ 96
  and_not_mask = omega (
    arith,
    and_fields (2 ^ 32 - 1) 0 (omega arith),
    bit_and_ones 32 (v / 2 ^ 96) (omega arith),
    bit_and-zero 96 (v % 2 ^ 96) (omega arith),
  )

  -- The upper 32 bits, split into two halves of 16.
  and_upper :
      (m s : ℕ)
      → s < 2 ^ 16
      → bit_and (v / 2 ^ 96) (m * 2 ^ 16 + s)
        ≡ bit_and (v / 2 ^ 112) m * 2 ^ 16 + bit_and (v / 2 ^ 96 % 2 ^ 16) s
  and_upper m s k =
      ap (λ (t : ℕ). bit_and t (m * 2 ^ 16 + s))
        (let e : v / 2 ^ 96 ≡ v / 2 ^ 112 * 2 ^ 16 + v / 2 ^ 96 % 2 ^ 16 = omega arith in e)
      ∙ bit_and-fields 16 (v / 2 ^ 112) (v / 2 ^ 96 % 2 ^ 16) m s (omega arith) k

  pub and_mask_16 : bit_and v bluetooth_base_mask_16 ≡ v / 2 ^ 112 * 2 ^ 112 + v % 2 ^ 96
  and_mask_16 = omega (
    arith,
    and_fields 0xffff_0000 (2 ^ 96 - 1) (omega arith),
    and_upper 0xffff 0 (omega arith),
    bit_and_ones 16 (v / 2 ^ 112) (omega arith),
    bit_and-zero 16 (v / 2 ^ 96 % 2 ^ 16) (omega arith),
    bit_and_ones 96 (v % 2 ^ 96) (omega arith),
  )

  pub and_not_mask_16 : bit_and v (not_u128 bluetooth_base_mask_16) ≡ v / 2 ^ 96 % 2 ^ 16 * 2 ^ 96
  and_not_mask_16 = omega (
    arith,
    and_fields 0xffff 0 (omega arith),
    and_upper 0 0xffff (omega arith),
    bit_and-zero 16 (v / 2 ^ 112) (omega arith),
    bit_and_ones 16 (v / 2 ^ 96 % 2 ^ 16) (omega arith),
    bit_and-zero 96 (v % 2 ^ 96) (omega arith),
  )
