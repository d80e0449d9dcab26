-- ===== src/Transport.antt =====
-- The HCI transport of src/lib.rs: packets from the controller (`transport_task_rx`) and to it
-- (`ble_transport_to_ll_cmd_impl`, `ble_transport_to_ll_acl_impl`).
pub mod Receive
pub mod Send
pub mod Loopback
pub mod Link
mod Tests
use esp_nimble_host.Prelude.{
  ℕ, ◌+◌, ◌-◌, ◌*◌, ◌/◌, ◌%◌, ◌&&◌, Option, none, some, List, [], ◌∷◌, leb, if◌then◌else◌, length,
  take, drop,
}

-- The H4 packet types.
abbrev pub h4_cmd : ℕ
h4_cmd = 1

abbrev pub h4_acl : ℕ
h4_acl = 2

abbrev pub h4_evt : ℕ
h4_evt = 4

-- `&bytes[from..to]`, which panics out of range.
pub slice : ℕ → ℕ → List ℕ → Option (List ℕ)
slice from to bytes =
    if leb from to && leb to (length bytes) then some (take (to - from) (drop from bytes)) else none

-- `u16::from_le_bytes` and `u16::to_le_bytes`.
unfoldable pub u16_from_le_bytes : ℕ → ℕ → ℕ
u16_from_le_bytes low high = low + 256 * high

pub u16_to_le_bytes : ℕ → List ℕ
u16_to_le_bytes n = n % 256 ∷ n / 256 ∷ []
