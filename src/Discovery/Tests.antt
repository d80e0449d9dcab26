-- ===== src/Discovery/Tests.antt =====
-- The theorems on src/discovery.rs at concrete inputs.
use esp_nimble_host.Prelude.{
  ℕ, ◌+◌, ◌≡◌, refl, ap, subst, inl, inr, none, some, List, [], ◌∷◌, arith, Result, ok, err, ready,
  ltb, ◌==◌, if◌then◌else◌, Bool-cases, ltb→lt,
}
use esp_nimble_host.Error.{NimbleError, GattError, GattResult, DataError}
use esp_nimble_host.ReturnCode.{error_of_code}
use esp_nimble_host.Platform.Concrete.{nimble, platform, platform-SignalLaws}
use esp_nimble_host.Characteristic.{Characteristic, Descriptor}
use esp_nimble_host.Discovery.Callbacks.{DiscCall, discover, discovered_cb}
use esp_nimble_host.Discovery.Callbacks.Laws.{items, discover-result}
use esp_nimble_host.Discovery.Enrich.{descriptor_end, enrich_characteristics}
use esp_nimble_host.Discovery.Enrich.Ranges.{
  Answered, Between, AnswersInRange, Owned, Ordered, enrich_characteristics-Owned,
}

abbrev keep : ℕ → Result ℕ DataError
keep n = ok n

abbrev failed : NimbleError → GattError
failed e = GattError.service_discovery_failed e

-- An item for connection 7, and the end of the procedure.
abbrev item : DiscCall ℕ
item = record { conn_handle = 7; error = some 0; item = some 5 }

abbrev done : DiscCall ℕ
done = record { conn_handle = 7; error = some 14; item = none }

discover-result_example :
    discover platform
      (discovered_cb platform keep failed)
      failed
      GattError.no_services_discovered
      7
      0
      (item ∷ done ∷ [])
    ≡ some (
        ready (
          if 14 == 14
          then ok (items platform keep failed GattError.no_services_discovered 7 (item ∷ []))
          else err (failed (error_of_code nimble 14))))
discover-result_example =
    discover-result platform keep failed GattError.no_services_discovered 7 platform-SignalLaws
      (item ∷ []) 14 none (inr (inr refl), tt) (omega arith)

abbrev chr : ℕ → Characteristic platform
chr n = record { uuid = platform.from_u128 10752; handle = n + 1; def_handle = n; descriptors = [] }

-- A server with one descriptor behind each value.
abbrev server : ℕ → ℕ → GattResult (List (Descriptor platform))
server lo hi =
    if ltb lo hi
    then ok (record { uuid = platform.from_u128 10498; handle = lo + 1 } ∷ [])
    else ok []

found : GattResult (List (Descriptor platform)) → List (Descriptor platform)
found (ok ds) = ds
found (err e) = []

server-Between : (lo hi : ℕ) → Between platform lo (hi + 1) (found (server lo hi))
unfolding found
server-Between lo hi = elim (Bool-cases (ltb lo hi)) [
  | inl e ↦ rw e ((omega arith, omega (arith, ltb→lt lo hi e)), tt)
  | inr e ↦ rw e tt
]

server-answers : AnswersInRange platform server
unfolding found
server-answers lo hi ds e =
    subst (λ ds. Between platform lo (hi + 1) ds) (ap found e) (server-Between lo hi)

-- Two characteristics of a service that ends at 30, and what they get.
abbrev discovered : List (Characteristic platform)
discovered = chr 10 ∷ chr 20 ∷ []

abbrev with_descriptor : ℕ → Characteristic platform
with_descriptor n = record (chr n) {
  descriptors = record { uuid = platform.from_u128 10498; handle = n + 2 } ∷ [];
}

abbrev enriched : List (Characteristic platform)
enriched = with_descriptor 10 ∷ with_descriptor 20 ∷ []

enrich_characteristics-enriched : enrich_characteristics platform server 30 discovered ≡ ok enriched
unfolding enrich_characteristics descriptor_end
enrich_characteristics-enriched = refl

discovered-Ordered : Ordered platform 30 discovered
discovered-Ordered = (omega arith, omega arith, (omega arith, omega arith, tt))

enrich_characteristics-Owned_example :
    Answered platform server 30 discovered enriched
    × Owned platform 30 enriched
    × Ordered platform 30 enriched
enrich_characteristics-Owned_example =
    enrich_characteristics-Owned platform server server-answers 30 discovered enriched
      discovered-Ordered (tt, (tt, tt)) enrich_characteristics-enriched
