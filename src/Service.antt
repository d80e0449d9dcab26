-- ===== src/Service.antt =====
-- src/service.rs: a GATT service.
use esp_nimble_host.Prelude.{ℕ, List, []}
use esp_nimble_host.Platform.{Platform}
use esp_nimble_host.Characteristic.{Characteristic}

module _ (P : Platform) where
  open P use {Uuid}

  pub record Service : Type 0 where
    pub uuid : Uuid
    pub start_handle : ℕ
    pub end_handle : ℕ
    pub characteristics : List (Characteristic P)

  -- `Service::new`.
  unfoldable pub new_service : Uuid → ℕ → ℕ → Service
  new_service uuid start_handle end_handle = record {
    uuid = uuid;
    start_handle = start_handle;
    end_handle = end_handle;
    characteristics = [];
  }
