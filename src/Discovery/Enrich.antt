-- ===== src/Discovery/Enrich.antt =====
-- `enrich_service` and the two discoveries that use it. The results of the GATT procedures that they
-- await are given as functions of the handle range.
pub mod Ranges
pub mod Frame
use esp_nimble_host.Prelude.{
  ℕ, ◌-◌, Option, none, some, List, [], ◌∷◌, ok, ◌>>=◌, leb, if◌then◌else◌,
}
use mathlib.Core.List.{get_last?}
use esp_nimble_host.Error.{GattError, GattResult}
use esp_nimble_host.Platform.{Platform}
use esp_nimble_host.Characteristic.{Descriptor, Characteristic}
use esp_nimble_host.Service.{Service}

module _ (P : Platform) where
  -- The definition handle of the next characteristic, less one, or the end of the service.
  unfoldable pub descriptor_end : List (Characteristic P) → ℕ → ℕ
  descriptor_end [] svc_end = svc_end
  descriptor_end (next ∷ rest) svc_end = next.def_handle - 1

  module _ (discover_descriptors : ℕ → ℕ → GattResult (List (Descriptor P))) where
    -- The loop over the characteristics from one of them on.
    unfoldable pub enrich_characteristics :
        ℕ → List (Characteristic P) → GattResult (List (Characteristic P))
    unfolding descriptor_end
    enrich_characteristics svc_end [] = ok []
    enrich_characteristics svc_end (c ∷ rest) =
        let desc_end = descriptor_end rest svc_end in
        let others = enrich_characteristics svc_end rest in
        if leb desc_end c.handle
        then (others >>= λ cs. ok (c ∷ cs))
        else (discover_descriptors c.handle desc_end >>= λ ds.
            others >>= λ cs. ok (record c { descriptors = ds } ∷ cs))

    module _ (discover_characteristics : ℕ → ℕ → GattResult (List (Characteristic P))) where
      pub enrich_service : Service P → GattResult (Service P)
      unfolding enrich_characteristics
      enrich_service service = do
        chars ← discover_characteristics service.start_handle service.end_handle
        enriched ← enrich_characteristics service.end_handle chars
        ok (record service { characteristics = enriched })

      pub enrich_all : List (Service P) → GattResult (List (Service P))
      unfolding enrich_service
      enrich_all [] = ok []
      enrich_all (service ∷ services) =
          let others = enrich_all services in
          enrich_service service >>= λ s. others >>= λ ss. ok (s ∷ ss)

      -- `ServiceDiscovery::run`.
      pub service_discovery_run : GattResult (List (Service P)) → GattResult (List (Service P))
      unfolding enrich_all
      service_discovery_run services = services >>= enrich_all

      enrich_last : Option (Service P) → GattResult (Option (Service P))
      unfolding enrich_service
      enrich_last none = ok none
      enrich_last (some service) = enrich_service service >>= λ s. ok (some s)

      -- `ServiceCharacteristicsDiscovery::run`; `services.pop()` takes the last one.
      pub service_characteristics_discovery_run :
          GattResult (List (Service P)) → GattResult (Option (Service P))
      unfolding enrich_last
      service_characteristics_discovery_run services = services >>= λ ss. enrich_last (get_last? ss)
