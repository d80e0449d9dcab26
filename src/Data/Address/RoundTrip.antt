-- ===== src/Data/Address/RoundTrip.antt =====
-- Printing and parsing an address of src/data.rs, and its number.
use esp_nimble_host.Data.Address.Text.Laws.{split-join, hex2-IsPlain, from_str_radix_16-hex2}
use esp_nimble_host.Prelude.{
  ℕ, ◌+◌, ◌*◌, ◌^◌, ◌<◌, ◌≡◌, refl, sym, ap, ◌∙◌, ◌≢◌, some, List, [], ◌∷◌, ◌++◌, map, arith, ok,
  length, All,
}
use native.Mathlib.Omega.{pow_step}
use esp_nimble_host.Data.Address.{
  address_of_parts, BleAddr, parse_octets, parse_str_with_type, fmt, from_le_bytes, as_u64,
}
use esp_nimble_host.Data.Address.Text.{hex2}

parse_octets-hex2 : (bs : List ℕ) → All (λ b. b < 256) bs → parse_octets (map hex2 bs) ≡ some bs
unfolding parse_octets
parse_octets-hex2 [] h = refl
parse_octets-hex2 (b ∷ bs) (h, hs) =
    rw (from_str_radix_16-hex2 b h, parse_octets, parse_octets-hex2 bs hs) refl

from_le_bytes-lt : (bs : List ℕ) → All (λ b. b < 256) bs → from_le_bytes bs < 256 ^ length bs
unfolding from_le_bytes
from_le_bytes-lt [] h = omega arith
from_le_bytes-lt (b ∷ bs) (h, hs) = omega (arith, from_le_bytes-lt bs hs, pow_step 256 (length bs))

from_le_bytes-injective :
    (bs cs : List ℕ)
    → All (λ b. b < 256) bs
    → All (λ b. b < 256) cs
    → length bs ≡ length cs
    → from_le_bytes bs ≡ from_le_bytes cs
    → bs ≡ cs
unfolding from_le_bytes
from_le_bytes-injective [] [] h k l e = refl
from_le_bytes-injective [] (c ∷ cs) h k l e = absurd (ground arith)
from_le_bytes-injective (b ∷ bs) [] h k l e = absurd (ground arith)
from_le_bytes-injective (b ∷ bs) (c ∷ cs) (h, hs) (k, ks) l e =
    ap (λ n. n ∷ bs) (omega arith)
    ∙ ap (λ ns. c ∷ ns) (from_le_bytes-injective bs cs hs ks (omega arith) (omega arith))

hex2s-IsPlain : (bs : List ℕ) → All (λ b. b < 256) bs → All (All (λ c. c ≢ b':')) (map hex2 bs)
hex2s-IsPlain [] h = tt
hex2s-IsPlain (b ∷ bs) (h, hs) = (hex2-IsPlain b h, hex2s-IsPlain bs hs)

abbrev pub address : (type_ a b c d e f : ℕ) → BleAddr
address type_ a b c d e f = record { type_ = type_; addr = a ∷ b ∷ c ∷ d ∷ e ∷ f ∷ [] }

-- An address of six octets is read back from the text that it is printed as.
pub parse_str_with_type-fmt :
    (type_ a b c d e f : ℕ)
    → All (λ o. o < 256) (a ∷ b ∷ c ∷ d ∷ e ∷ f ∷ [])
    → parse_str_with_type type_ (fmt (address type_ a b c d e f)) ≡ ok (address type_ a b c d e f)
unfolding parse_str_with_type fmt address_of_parts
parse_str_with_type-fmt type_ a b c d e f (ha, (hb, (hc, (hd, (he, (hf, _)))))) =
    let octets : All (λ o. o < 256) (f ∷ e ∷ d ∷ c ∷ b ∷ a ∷ []) =
      (hf, (he, (hd, (hc, (hb, (ha, tt)))))) in
    rw
      (
        split-join b':' (hex2 f) (map hex2 (e ∷ d ∷ c ∷ b ∷ a ∷ []))
            (hex2s-IsPlain (f ∷ e ∷ d ∷ c ∷ b ∷ a ∷ []) octets),
        parse_octets-hex2 (f ∷ e ∷ d ∷ c ∷ b ∷ a ∷ []) octets,
      )
      refl

from_le_bytes-zeros : (bs : List ℕ) → from_le_bytes (bs ++ 0 ∷ 0 ∷ []) ≡ from_le_bytes bs
unfolding from_le_bytes
from_le_bytes-zeros [] = refl
from_le_bytes-zeros (b ∷ bs) = ap (λ n. b + 256 * n) (from_le_bytes-zeros bs)

-- Two addresses of six octets with the same number have the same octets.
pub as_u64-injective :
    (x y : BleAddr)
    → length x.addr ≡ 6
    → length y.addr ≡ 6
    → All (λ o. o < 256) x.addr
    → All (λ o. o < 256) y.addr
    → as_u64 x ≡ as_u64 y
    → x.addr ≡ y.addr
unfolding as_u64
as_u64-injective x y lx ly hx hy e =
    from_le_bytes-injective x.addr y.addr hx hy (lx ∙ sym ly)
      (sym (from_le_bytes-zeros x.addr) ∙ e ∙ from_le_bytes-zeros y.addr)
