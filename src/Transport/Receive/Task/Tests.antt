-- ===== src/Transport/Receive/Task/Tests.antt =====
-- The receiving task of src/lib.rs at a concrete run.
use esp_nimble_host.Prelude.{◌≡◌, refl, true, false, none, some, ℕ, List, [], ◌∷◌, ◌++◌, map}
use esp_nimble_host.Platform.Concrete.{nimble}
use esp_nimble_host.ReturnCode.{return_code_to_result}
use esp_nimble_host.Transport.{slice}
use esp_nimble_host.Transport.Receive.{HostStack, receive, append_hdr, append_payload, deliver_acl}
use esp_nimble_host.Transport.Receive.Task.{
  Wanted, os_mbuf, hold, admit_hdr, after, Task, spawned, poll_read, poll_buffer, Reachable, begin,
  read_async, alloc,
}
use esp_nimble_host.Transport.Receive.Task.Laws.{
  outstanding, is_ended, any_short, Reachable-receive, Reachable-ended,
}

abbrev stack : HostStack
stack = record {
  os_mbuf_append = λ om bytes. 0;
  to_hs_acl = λ om. 0;
  to_hs_evt = λ opcode len payload. 0;
}

-- An ACL packet with two bytes of data.
abbrev acl : List ℕ
acl = 2 ∷ 1 ∷ 32 ∷ 2 ∷ 0 ∷ 170 ∷ 187 ∷ []

abbrev acl_mbuf : Wanted
acl_mbuf = os_mbuf (1 ∷ 32 ∷ 2 ∷ 0 ∷ []) (some (170 ∷ 187 ∷ []))

-- A failed read, a packet that waits for its mbuf twice, and an event packet of two bytes.
abbrev held : Task
held = poll_read nimble stack (some acl) (poll_read nimble stack none spawned)

abbrev crashed : Task
crashed =
    poll_read nimble stack (some (4 ∷ 62 ∷ []))
      (poll_buffer nimble stack acl_mbuf true (poll_buffer nimble stack acl_mbuf false held))

held-Reachable : Reachable nimble stack held
unfolding poll_read
held-Reachable = read_async (some acl) refl (read_async none refl begin)

crashed-Reachable : Reachable nimble stack crashed
unfolding poll_read poll_buffer hold admit_hdr slice append_hdr append_payload deliver_acl after
    return_code_to_result
crashed-Reachable =
    read_async (some (4 ∷ 62 ∷ [])) refl
      (alloc acl_mbuf true refl (alloc acl_mbuf false refl held-Reachable))

Reachable-receive_example :
    crashed.results ++ outstanding nimble stack crashed.phase
    ≡ map (receive nimble stack) crashed.packets
Reachable-receive_example = Reachable-receive nimble stack crashed crashed-Reachable

Reachable-ended_example :
    is_ended nimble stack crashed.phase ≡ any_short nimble stack crashed.packets
Reachable-ended_example = Reachable-ended nimble stack crashed crashed-Reachable
