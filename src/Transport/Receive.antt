-- ===== src/Transport/Receive.antt =====
-- One packet of `transport_task_rx` of src/lib.rs, with `ble_transport_to_hs_evt` of
-- src/nimble_sys/transport.rs. This is a turn of the loop in which a buffer is free; Task has the
-- waits.
pub mod Laws
pub mod Task
use esp_nimble_host.Prelude.{
  ℕ, ◌+◌, ◌-◌, ◌%◌, Option, none, some, List, [], ◌∷◌, ◌++◌, ok, err, ltb, ◌==◌, if◌then◌else◌,
  length, get_elem?,
}
use esp_nimble_host.Bindings.{Bindings}
use esp_nimble_host.Error.{NimbleResult}
use esp_nimble_host.ReturnCode.{return_code_to_result}
use esp_nimble_host.Transport.{h4_acl, h4_evt, slice, u16_from_le_bytes}

-- What becomes of a packet.
pub data Received : Type 0 where
  -- An index or a range was out of bounds.
  panicked : Received
  -- It was logged and skipped.
  dropped : Received
  -- Its buffer was allocated and freed again.
  freed : Received
  -- The copy wrote beyond the event buffer.
  overrun : Received
  -- The host got the bytes of an mbuf, or an event buffer's opcode, length and data.
  delivered_acl : List ℕ → Received
  delivered_event : ℕ → ℕ → List ℕ → Received

-- `buf` of `transport_task_rx`: a read gives at most so many bytes of a packet.
abbrev pub buf_len : ℕ
buf_len = 512

-- The NimBLE functions that the task calls. `os_mbuf_append` is given what the mbuf holds.
pub record HostStack : Type 0 where
  pub os_mbuf_append : List ℕ → List ℕ → ℕ
  pub to_hs_acl : List ℕ → ℕ
  pub to_hs_evt : ℕ → ℕ → List ℕ → ℕ

module _ (b : Bindings) (S : HostStack) where
  open S use {os_mbuf_append, to_hs_acl, to_hs_evt}

  deliver_acl : List ℕ → NimbleResult (Unit {0}) → Received
  deliver_acl om (ok _) = delivered_acl om
  deliver_acl om (err e) = freed

  append_payload : List ℕ → List ℕ → NimbleResult (Unit {0}) → Received
  unfolding deliver_acl
  append_payload hdr payload (err e) = freed
  append_payload hdr payload (ok _) =
      deliver_acl (hdr ++ payload) (return_code_to_result b (to_hs_acl (hdr ++ payload)) tt)

  append_hdr : List ℕ → Option (List ℕ) → NimbleResult (Unit {0}) → Received
  unfolding append_payload
  append_hdr hdr payload (err e) = freed
  append_hdr hdr none (ok _) = panicked
  append_hdr hdr (some payload) (ok _) =
      append_payload hdr payload (return_code_to_result b (os_mbuf_append hdr payload) tt)

  -- From the header on; `handle` and `len` are the two slices that it is copied from.
  fill_mbuf : List ℕ → ℕ → Option (List ℕ) → Option (List ℕ) → Received
  unfolding append_hdr
  fill_mbuf packet data_len none len = panicked
  fill_mbuf packet data_len (some handle) none = panicked
  fill_mbuf packet data_len (some handle) (some len) =
      append_hdr (handle ++ len) (slice 5 (5 + data_len) packet)
        (return_code_to_result b (os_mbuf_append [] (handle ++ len)) tt)

  receive_sized : List ℕ → ℕ → Received
  unfolding fill_mbuf
  receive_sized packet data_len =
      if ltb (length packet) (1 + 2 + 2 + data_len)
      then dropped
      else fill_mbuf packet data_len (slice 1 3 packet) (slice 3 5 packet)

  receive_lengths : List ℕ → Option ℕ → Option ℕ → Received
  unfolding receive_sized u16_from_le_bytes
  receive_lengths packet none high = panicked
  receive_lengths packet (some low) none = panicked
  receive_lengths packet (some low) (some high) = receive_sized packet (u16_from_le_bytes low high)

  -- The arm of `PacketType::Acl`.
  pub receive_acl : List ℕ → Received
  unfolding receive_lengths
  receive_acl packet =
      if ltb (length packet) (1 + 2 + 2)
      then dropped
      else receive_lengths packet (get_elem? packet 3) (get_elem? packet 4)

  -- `ble_transport_to_hs_evt`: the buffer has room for `BLE_TRANSPORT_EVT_SIZE` bytes, two of them
  -- the header's, and `payload.len() as u8` wraps.
  pub ble_transport_to_hs_evt : ℕ → List ℕ → Received
  ble_transport_to_hs_evt opcode payload =
      if ltb (b.ble_transport_evt_size - 2) (length payload)
      then overrun
      else if to_hs_evt opcode (length payload % 256) payload == 0
      then delivered_event opcode (length payload % 256) payload
      else freed

  fill_event : Option ℕ → Option (List ℕ) → Received
  unfolding ble_transport_to_hs_evt
  fill_event none payload = panicked
  fill_event (some opcode) none = panicked
  fill_event (some opcode) (some payload) = ble_transport_to_hs_evt opcode payload

  receive_event_sized : List ℕ → Option ℕ → Received
  unfolding fill_event
  receive_event_sized packet none = panicked
  receive_event_sized packet (some payload_len) =
      if ltb (b.ble_transport_evt_size - 2) payload_len
      then dropped
      else fill_event (get_elem? packet 1) (slice 3 (length packet) packet)

  -- The arm of `PacketType::Event`.
  pub receive_event : List ℕ → Received
  unfolding receive_event_sized
  receive_event packet = receive_event_sized packet (get_elem? packet 2)

  -- One turn of the loop, for the bytes that a read put into the buffer, at most `buf_len`.
  pub receive : List ℕ → Received
  unfolding receive_acl receive_event
  receive [] = dropped
  receive (packet_type ∷ rest) =
      if packet_type == h4_acl
      then receive_acl (packet_type ∷ rest)
      else if packet_type == h4_evt
      then receive_event (packet_type ∷ rest)
      else dropped
