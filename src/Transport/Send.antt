-- ===== src/Transport/Send.antt =====
-- `ble_transport_to_ll_cmd_impl` and `ble_transport_to_ll_acl_impl` of src/lib.rs. The queue to the
-- controller is embassy-sync's channel, of which `try_send` is a parameter.
pub mod Laws
use esp_nimble_host.Prelude.{
  ℕ, ◌+◌, ◌%◌, Option, none, some, List, [], ◌∷◌, ◌++◌, ltb, ◌==◌, if◌then◌else◌, length, take,
}
use esp_nimble_host.Bindings.{Bindings}
use esp_nimble_host.Transport.{h4_cmd, h4_acl, u16_to_le_bytes}

-- `ble_hci_cmd`: the header, and what is behind it in memory.
pub record HciCmd : Type 0 where
  pub opcode : ℕ
  pub length : ℕ
  pub params : List ℕ

-- One mbuf of a chain; its data pointer may be null.
pub record Segment : Type 0 where
  pub om_len : ℕ
  pub om_data : Option (List ℕ)

-- The H4 frame of a command.
pub cmd_packet : HciCmd → List ℕ
unfolding u16_to_le_bytes
cmd_packet cmd =
    (h4_cmd ∷ [])
    ++ u16_to_le_bytes cmd.opcode
    ++ (cmd.length % 256 ∷ [])
    ++ take cmd.length cmd.params

-- The two loops over the chain.
pub total_len : List Segment → ℕ
total_len [] = 0
total_len (s ∷ rest) = s.om_len + total_len rest

pub segment_bytes : ℕ → Option (List ℕ) → List ℕ
segment_bytes om_len none = []
segment_bytes om_len (some bytes) = if om_len == 0 then [] else take om_len bytes

pub copied : List Segment → List ℕ
unfolding segment_bytes
copied [] = []
copied (s ∷ rest) = segment_bytes s.om_len s.om_data ++ copied rest

module _ (b : Bindings) {Queue : Type 0} (try_send : List ℕ → Queue → Option Queue) where
  -- The code returned and the queue.
  unfoldable pub send_packet : List ℕ → Queue → ℕ × Queue
  send_packet packet queue = elim (try_send packet queue) [
    | none ↦ (b.ble_hs_eagain, queue)
    | some queue' ↦ (0, queue')
  ]

  unfoldable pub ble_transport_to_ll_cmd_impl : Option HciCmd → Queue → ℕ × Queue
  unfolding cmd_packet send_packet
  ble_transport_to_ll_cmd_impl none queue = (b.ble_hs_einval, queue)
  ble_transport_to_ll_cmd_impl (some cmd) queue =
      if ltb 255 cmd.length then (b.ble_hs_einval, queue) else send_packet (cmd_packet cmd) queue

  unfoldable pub ble_transport_to_ll_acl_impl : List Segment → Queue → ℕ × Queue
  unfolding total_len copied send_packet
  ble_transport_to_ll_acl_impl [] queue = (b.ble_hs_einval, queue)
  ble_transport_to_ll_acl_impl (s ∷ rest) queue =
      if ltb (total_len (s ∷ rest)) 4
      then (b.ble_hs_einval, queue)
      else send_packet (h4_acl ∷ copied (s ∷ rest)) queue
