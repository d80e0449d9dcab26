-- ===== src/Data/Address/Text/Laws.antt =====
-- Hexadecimal text and split text, there and back.
use esp_nimble_host.Prelude.{
  ℕ, ◌+◌, ◌*◌, ◌/◌, ◌%◌, ◌<◌, ◌≡◌, refl, ap, ◌∙◌, ◌≢◌, some, List, [], ◌∷◌, ◌++◌, arith, All, eq→==,
  ne→==, lt→ltb,
}
use esp_nimble_host.Data.Address.Text.{
  split_from, split, join, hex_digit, digits_from, from_str_radix_16, digit, hex2,
}

hex_digit-digit : (d : ℕ) → d < 16 → hex_digit (digit d) ≡ some d
unfolding hex_digit digit
hex_digit-digit d h = ground arith

digit-IsPlain : (d : ℕ) → d < 16 → (digit d ≢ b'+') × (digit d ≢ b':')
unfolding digit
digit-IsPlain d h = ground arith

-- No printed byte has the separator in it.
pub hex2-IsPlain : (b : ℕ) → b < 256 → All (λ c. c ≢ b':') (hex2 b)
unfolding hex2
hex2-IsPlain b h =
    ((digit-IsPlain (b / 16) (omega arith)).1, ((digit-IsPlain (b % 16) (omega arith)).1, tt))

digits_from-digit :
    (acc d : ℕ) (cs : List ℕ)
    → d < 16
    → acc * 16 + d < 256
    → digits_from acc (digit d ∷ cs) ≡ digits_from (acc * 16 + d) cs
unfolding digits_from
digits_from-digit acc d cs h k =
    rw (hex_digit-digit d h, digits_from, lt→ltb (acc * 16 + d) 256 k) refl

pub from_str_radix_16-hex2 : (b : ℕ) → b < 256 → from_str_radix_16 (hex2 b) ≡ some b
unfolding from_str_radix_16 hex2 digits_from
from_str_radix_16-hex2 b h =
    rw (ne→== (digit (b / 16)) b'+' (digit-IsPlain (b / 16) (omega arith)).0) (
      digits_from-digit 0 (b / 16) (digit (b % 16) ∷ []) (omega arith) (omega arith)
      ∙ digits_from-digit (0 * 16 + b / 16) (b % 16) [] (omega arith) (omega arith)
      ∙ ap (λ n. some n) (omega arith))

append-[] : (xs : List ℕ) → xs ++ [] ≡ xs
append-[] [] = refl
append-[] (x ∷ xs) = ap (λ t. x ∷ t) (append-[] xs)

split_from-part :
    (sep : ℕ) (part rest : List ℕ)
    → All (λ c. c ≢ sep) part
    → split_from sep (part ++ rest) ≡ (part ++ (split_from sep rest).0, (split_from sep rest).1)
unfolding split_from
split_from-part sep [] rest h = refl
split_from-part sep (c ∷ cs) rest (h, hs) = rw (ne→== c sep h, split_from-part sep cs rest hs) refl

split_from-whole :
    (sep : ℕ) (part : List ℕ) → All (λ c. c ≢ sep) part → split_from sep part ≡ (part, [])
unfolding split_from
split_from-whole sep [] h = refl
split_from-whole sep (c ∷ cs) (h, hs) = rw (ne→== c sep h, split_from-whole sep cs hs) refl

split_from-join :
    (sep : ℕ) (part : List ℕ) (parts : List (List ℕ))
    → All (All (λ c. c ≢ sep)) (part ∷ parts)
    → split_from sep (join sep (part ∷ parts)) ≡ (part, parts)
unfolding join split_from
split_from-join sep part [] (h, hs) = split_from-whole sep part h
split_from-join sep part (next ∷ parts) (h, hs) =
    split_from-part sep part (sep ∷ join sep (next ∷ parts)) h
    ∙ rw (eq→== sep sep refl, split_from-join sep next parts hs)
        (ap (λ p. (p, next ∷ parts)) (append-[] part))

-- Parts without the separator can be told apart in what is joined.
pub split-join :
    (sep : ℕ) (part : List ℕ) (parts : List (List ℕ))
    → All (All (λ c. c ≢ sep)) (part ∷ parts)
    → split sep (join sep (part ∷ parts)) ≡ part ∷ parts
unfolding split
split-join sep part parts h = rw (split_from-join sep part parts h) refl
