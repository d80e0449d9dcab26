-- ===== src/Transport/Receive/Task.antt =====
-- `transport_task_rx` of src/lib.rs over its polls: it waits for the controller, and with a packet in
-- hand for a free mbuf or event buffer.
pub mod Laws
mod Tests
use esp_nimble_host.Prelude.{
  ℕ, ◌+◌, ◌-◌, ◌≡◌, refl, sym, ap, ◌∙◌, ◌≢◌, inl, inr, Bool, true, false, Option, none, some, List,
  [], ◌∷◌, ◌++◌, map, ltb, ◌==◌, if◌then◌else◌, length, get_elem?, Bool-cases,
}
use esp_nimble_host.Bindings.{Bindings}
use esp_nimble_host.ReturnCode.{return_code_to_result}
use esp_nimble_host.Transport.{h4_acl, h4_evt, slice, u16_from_le_bytes}
use esp_nimble_host.Transport.Receive.{
  Received, panicked, dropped, freed, overrun, delivered_acl, delivered_event, HostStack,
  append_hdr, fill_mbuf, receive_sized, receive_lengths, receive_acl, fill_event,
  receive_event_sized, receive_event, receive,
}

-- What a packet in hand waits for: an mbuf for this header and payload, or an event buffer for this
-- packet.
pub data Wanted : Type 0 where
  os_mbuf : List ℕ → Option (List ℕ) → Wanted
  hci_ev : List ℕ → Wanted

-- A packet up to the allocation of its buffer.
pub data Admitted : Type 0 where
  settled : Received → Admitted
  wants : Wanted → Admitted

pub data Phase : Type 0 where
  reading : Phase
  allocating : Wanted → Phase
  -- The task panicked.
  ended : Phase

-- The task, with the packets that it read and what became of those that it is done with.
pub record Task : Type 0 where
  pub phase : Phase
  pub packets : List (List ℕ)
  pub results : List Received

abbrev pub spawned : Task
spawned = record { phase = reading; packets = []; results = [] }

-- The task goes on with the next packet, unless it panicked.
after : Received → Phase
after panicked = ended
after dropped = reading
after freed = reading
after overrun = reading
after (delivered_acl om) = reading
after (delivered_event opcode len payload) = reading

settle : Received → Task → Task
unfolding after
settle r t = record t { phase = after r; results = t.results ++ r ∷ [] }

module _ (b : Bindings) (S : HostStack) where
  admit_hdr : List ℕ → ℕ → Option (List ℕ) → Option (List ℕ) → Admitted
  admit_hdr packet data_len none len = settled panicked
  admit_hdr packet data_len (some handle) none = settled panicked
  admit_hdr packet data_len (some handle) (some len) =
      wants (os_mbuf (handle ++ len) (slice 5 (5 + data_len) packet))

  admit_sized : List ℕ → ℕ → Admitted
  unfolding admit_hdr
  admit_sized packet data_len =
      if ltb (length packet) (1 + 2 + 2 + data_len)
      then settled dropped
      else admit_hdr packet data_len (slice 1 3 packet) (slice 3 5 packet)

  admit_lengths : List ℕ → Option ℕ → Option ℕ → Admitted
  unfolding admit_sized u16_from_le_bytes
  admit_lengths packet none high = settled panicked
  admit_lengths packet (some low) none = settled panicked
  admit_lengths packet (some low) (some high) = admit_sized packet (u16_from_le_bytes low high)

  admit_acl : List ℕ → Admitted
  unfolding admit_lengths
  admit_acl packet =
      if ltb (length packet) (1 + 2 + 2)
      then settled dropped
      else admit_lengths packet (get_elem? packet 3) (get_elem? packet 4)

  admit_event : List ℕ → Option ℕ → Admitted
  admit_event packet none = settled panicked
  admit_event packet (some payload_len) =
      if ltb (b.ble_transport_evt_size - 2) payload_len
      then settled dropped
      else wants (hci_ev packet)

  -- The checks of a packet before the loop that allocates.
  pub admit : List ℕ → Admitted
  unfolding admit_acl admit_event
  admit [] = settled dropped
  admit (packet_type ∷ rest) =
      if packet_type == h4_acl
      then admit_acl (packet_type ∷ rest)
      else if packet_type == h4_evt
      then admit_event (packet_type ∷ rest) (get_elem? (packet_type ∷ rest) 2)
      else settled dropped

  -- From the buffer on.
  pub with_buffer : Wanted → Received
  with_buffer (os_mbuf hdr payload) =
      append_hdr b S hdr payload (return_code_to_result b (S.os_mbuf_append [] hdr) tt)
  with_buffer (hci_ev packet) = fill_event b S (get_elem? packet 1) (slice 3 (length packet) packet)

  hold : Admitted → Task → Task
  unfolding settle
  hold (settled r) t = settle r t
  hold (wants w) t = record t { phase = allocating w }

  -- The controller's answer: an error is logged, and the task reads again.
  pub poll_read : Option (List ℕ) → Task → Task
  unfolding hold admit
  poll_read none t = t
  poll_read (some packet) t = hold (admit packet) (record t { packets = t.packets ++ packet ∷ [] })

  -- One turn of a loop that allocates: `yield_now` when nothing is free.
  pub poll_buffer : Wanted → Bool → Task → Task
  unfolding settle with_buffer
  poll_buffer w false t = t
  poll_buffer w true t = settle (with_buffer w) t

  pub data Reachable : Task → Type 0 where
    begin : Reachable spawned
    read_async :
        (answer : Option (List ℕ)) {t : Task}
        → t.phase ≡ reading
        → Reachable t
        → Reachable (poll_read answer t)
    alloc :
        (w : Wanted) (free : Bool) {t : Task}
        → t.phase ≡ allocating w
        → Reachable t
        → Reachable (poll_buffer w free t)

  finish : Admitted → Received
  finish (settled r) = r
  finish (wants w) = with_buffer w

  finish-admit_hdr :
      (packet : List ℕ) (n : ℕ) (handle len : Option (List ℕ))
      → finish (admit_hdr packet n handle len) ≡ fill_mbuf b S packet n handle len
  unfolding finish admit_hdr fill_mbuf with_buffer
  finish-admit_hdr packet n none len = refl
  finish-admit_hdr packet n (some handle) none = refl
  finish-admit_hdr packet n (some handle) (some len) = refl

  finish-admit_sized :
      (packet : List ℕ) (n : ℕ) → finish (admit_sized packet n) ≡ receive_sized b S packet n
  unfolding finish admit_sized receive_sized
  finish-admit_sized packet n = elim (Bool-cases (ltb (length packet) (1 + 2 + 2 + n))) [
    | inl e ↦ rw e refl
    | inr e ↦ rw e (finish-admit_hdr packet n (slice 1 3 packet) (slice 3 5 packet))
  ]

  finish-admit_lengths :
      (packet : List ℕ) (low high : Option ℕ)
      → finish (admit_lengths packet low high) ≡ receive_lengths b S packet low high
  unfolding finish admit_lengths receive_lengths
  finish-admit_lengths packet none high = refl
  finish-admit_lengths packet (some low) none = refl
  finish-admit_lengths packet (some low) (some high) = finish-admit_sized packet _

  finish-admit_acl : (packet : List ℕ) → finish (admit_acl packet) ≡ receive_acl b S packet
  unfolding finish admit_acl receive_acl
  finish-admit_acl packet = elim (Bool-cases (ltb (length packet) (1 + 2 + 2))) [
    | inl e ↦ rw e refl
    | inr e ↦ rw e (finish-admit_lengths packet (get_elem? packet 3) (get_elem? packet 4))
  ]

  finish-admit_event :
      (packet : List ℕ) (len : Option ℕ)
      → finish (admit_event packet len) ≡ receive_event_sized b S packet len
  unfolding finish admit_event receive_event_sized with_buffer
  finish-admit_event packet none = refl
  finish-admit_event packet (some n) = elim (Bool-cases (ltb (b.ble_transport_evt_size - 2) n)) [
    | inl e ↦ rw e refl
    | inr e ↦ rw e refl
  ]

  -- Without the wait, a packet's checks and what follows them are a turn of the loop.
  finish-admit : (packet : List ℕ) → finish (admit packet) ≡ receive b S packet
  unfolding finish admit receive receive_event
  finish-admit [] = refl
  finish-admit (t ∷ rest) = elim (Bool-cases (t == h4_acl)) [
    | inl e ↦ rw e (finish-admit_acl (t ∷ rest))
    | inr e ↦ elim (Bool-cases (t == h4_evt)) [
      | inl e' ↦ rw (e, e') (finish-admit_event (t ∷ rest) (get_elem? (t ∷ rest) 2))
      | inr e' ↦ rw (e, e') refl
    ]
  ]
