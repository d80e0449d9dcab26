-- ===== src/Characteristic.antt =====
-- src/characteristic.rs: descriptors, characteristics, and reads and writes of an attribute.
pub mod Read
pub mod Write
use esp_nimble_host.Prelude.{ℕ, List, []}
use esp_nimble_host.Platform.{Platform}

module _ (P : Platform) where
  open P use {Uuid}

  pub record Descriptor : Type 0 where
    pub uuid : Uuid
    pub handle : ℕ

  pub record Characteristic : Type 0 where
    pub uuid : Uuid
    pub handle : ℕ
    pub def_handle : ℕ
    pub descriptors : List Descriptor

  -- `Characteristic::new`.
  unfoldable pub new_characteristic : Uuid → ℕ → ℕ → Characteristic
  new_characteristic uuid handle def_handle = record {
    uuid = uuid;
    handle = handle;
    def_handle = def_handle;
    descriptors = [];
  }
