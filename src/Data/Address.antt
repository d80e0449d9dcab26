-- ===== src/Data/Address.antt =====
-- src/data.rs: `BleAddr`, its parser, its printer and its number. Text is a list of byte codes.
pub mod Text
pub mod RoundTrip
mod Tests
use mathlib.Core.Option
use esp_nimble_host.Prelude.{
  ℕ, ◌+◌, ◌*◌, Option, none, some, List, [], ◌∷◌, ◌++◌, map, reverse, Result, ok, err, ◌==◌,
  if◌then◌else◌, length,
}
use esp_nimble_host.Error.{DataError}
use Text.{split, join, from_str_radix_16, hex2}

-- `addr` holds six octets, the last one of the printed form first.
pub record BleAddr : Type 0 where
  pub type_ : ℕ
  pub addr : List ℕ

-- `.map(..).collect::<Result<_, _>>()`
pub parse_octets : List (List ℕ) → Option (List ℕ)
parse_octets [] = some []
parse_octets (p ∷ ps) = elim (from_str_radix_16 p) [
  | none ↦ none
  | some b ↦ Option.map (λ bs. b ∷ bs) (parse_octets ps)
]

address_of_parts : ℕ → Option (List ℕ) → Result BleAddr DataError
address_of_parts type_ none = err DataError.invalid_argument
address_of_parts type_ (some parts) =
    if length parts == 6
    then ok (record { type_ = type_; addr = reverse parts })
    else err DataError.invalid_argument

pub parse_str_with_type : ℕ → List ℕ → Result BleAddr DataError
unfolding parse_octets address_of_parts
parse_str_with_type type_ addr = address_of_parts type_ (parse_octets (split b':' addr))

-- `Display`.
pub fmt : BleAddr → List ℕ
fmt a = join b':' (map hex2 (reverse a.addr))

-- `u64::from_le_bytes`.
pub from_le_bytes : List ℕ → ℕ
from_le_bytes [] = 0
from_le_bytes (b ∷ bs) = b + 256 * from_le_bytes bs

-- The six octets and two zeros above them.
pub as_u64 : BleAddr → ℕ
unfolding from_le_bytes
as_u64 a = from_le_bytes (a.addr ++ 0 ∷ 0 ∷ [])
