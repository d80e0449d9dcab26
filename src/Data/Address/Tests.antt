-- ===== src/Data/Address/Tests.antt =====
-- The theorems on addresses of src/data.rs at a concrete one.
use esp_nimble_host.Prelude.{◌<◌, ◌≡◌, [], ◌∷◌, arith, ok, All}
use esp_nimble_host.Data.Address.{BleAddr, parse_str_with_type, fmt}
use esp_nimble_host.Data.Address.RoundTrip.{address, parse_str_with_type-fmt}

abbrev sample : BleAddr
sample = address 1 10 27 44 61 78 239

sample-bytes : All (λ o. o < 256) (10 ∷ 27 ∷ 44 ∷ 61 ∷ 78 ∷ 239 ∷ [])
sample-bytes =
    (omega arith, (omega arith, (omega arith, (omega arith, (omega arith, (omega arith, tt))))))

parse_str_with_type-fmt_example : parse_str_with_type 1 (fmt sample) ≡ ok sample
parse_str_with_type-fmt_example = parse_str_with_type-fmt 1 10 27 44 61 78 239 sample-bytes
