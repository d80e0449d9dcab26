-- ===== src/Data/Address/Text.antt =====
-- What the address parser and printer use of Rust's standard library: `str::split`, `join`,
-- `u8::from_str_radix` at radix 16 and the format `{:02x}`.
pub mod Laws
use esp_nimble_host.Prelude.{
  ℕ, ◌+◌, ◌-◌, ◌*◌, ◌/◌, ◌%◌, ◌&&◌, ◌||◌, Option, none, some, List, [], ◌∷◌, ◌++◌, ltb, leb, ◌==◌,
  if◌then◌else◌,
}

-- The first part and the parts behind each separator.
split_from : ℕ → List ℕ → List ℕ × List (List ℕ)
split_from sep [] = ([], [])
split_from sep (c ∷ cs) =
    let (part, parts) = split_from sep cs in
    if c == sep then ([], part ∷ parts) else (c ∷ part, parts)

pub split : ℕ → List ℕ → List (List ℕ)
unfolding split_from
split sep text = let (part, parts) = split_from sep text in part ∷ parts

pub join : ℕ → List (List ℕ) → List ℕ
join sep [] = []
join sep (p ∷ []) = p
join sep (p ∷ q ∷ ps) = p ++ sep ∷ join sep (q ∷ ps)

-- `char::to_digit(16)`.
pub hex_digit : ℕ → Option ℕ
hex_digit c =
    if leb b'0' c && leb c b'9'
    then some (c - b'0')
    else if leb b'a' c && leb c b'f'
    then some (c - b'a' + 10)
    else if leb b'A' c && leb c b'F'
    then some (c - b'A' + 10)
    else none

-- `checked_mul` and `checked_add` on a `u8`.
digits_from : ℕ → List ℕ → Option ℕ
unfolding hex_digit
digits_from acc [] = some acc
digits_from acc (c ∷ cs) = elim (hex_digit c) [
  | none ↦ none
  | some d ↦ if ltb (acc * 16 + d) 256 then digits_from (acc * 16 + d) cs else none
]

-- An empty text, or a sign alone, is an error. One leading `+` is skipped.
pub from_str_radix_16 : List ℕ → Option ℕ
unfolding digits_from
from_str_radix_16 [] = none
from_str_radix_16 (c ∷ []) = if (c == b'+') || (c == b'-') then none else digits_from 0 (c ∷ [])
from_str_radix_16 (c ∷ d ∷ ds) =
    if c == b'+' then digits_from 0 (d ∷ ds) else digits_from 0 (c ∷ d ∷ ds)

-- One lower-case hexadecimal digit.
pub digit : ℕ → ℕ
digit d = if ltb d 10 then b'0' + d else b'a' + (d - 10)

-- `{b:02x}` of a byte.
pub hex2 : ℕ → List ℕ
unfolding digit
hex2 b = digit (b / 16) ∷ digit (b % 16) ∷ []
