-- ===== src/Transport/Tests.antt =====
-- The theorems on the transport of src/lib.rs at concrete inputs.
use esp_nimble_host.Prelude.{
  ◌≤◌, ℕ, ◌≡◌, refl, Option, none, some, List, [], ◌∷◌, ◌++◌, arith, ltb, if◌then◌else◌, length,
  All,
}
use esp_nimble_host.Platform.Concrete.{nimble}
use esp_nimble_host.Transport.{u16_from_le_bytes}
use esp_nimble_host.Transport.Loopback.{receive-ble_transport_to_ll_acl_impl}
use esp_nimble_host.Transport.Receive.{buf_len, HostStack, receive, delivered_acl}
use esp_nimble_host.Transport.Send.{
  HciCmd, Segment, send_packet, ble_transport_to_ll_cmd_impl, ble_transport_to_ll_acl_impl,
}
use esp_nimble_host.Transport.Send.Laws.{
  data_of, parse_cmd, contents, IsFull, ble_transport_to_ll_cmd_impl-parse_cmd,
}
use esp_nimble_host.Transport.Link.{
  Channel, ChannelLaws, Call, cmd, Link, Reachable, begin, called, turn, call, transport_task_tx,
  initial,
}
use esp_nimble_host.Transport.Link.Laws.{accepted, turns, Reachable-accepted, turns-accepted}

-- A host stack that takes everything.
abbrev stack : HostStack
stack = record {
  os_mbuf_append = λ om bytes. 0;
  to_hs_acl = λ om. 0;
  to_hs_evt = λ opcode len payload. 0;
}

-- A queue of two places.
abbrev try_send : List ℕ → List (List ℕ) → Option (List (List ℕ))
try_send packet queue = if ltb (length queue) 2 then some (queue ++ packet ∷ []) else none

abbrev reset_cmd : HciCmd
reset_cmd = record { opcode = 3075; length = 1; params = 5 ∷ 6 ∷ [] }

ble_transport_to_ll_cmd_impl-parse_cmd_example :
    (packet : List ℕ) × (ble_transport_to_ll_cmd_impl nimble try_send (some reset_cmd) []
      ≡ send_packet nimble try_send packet [])
    × (parse_cmd packet ≡ some (3075, 5 ∷ []))
ble_transport_to_ll_cmd_impl-parse_cmd_example =
    ble_transport_to_ll_cmd_impl-parse_cmd nimble try_send reset_cmd [] (omega arith) (omega arith)

abbrev header : Segment
header = record { om_len = 4; om_data = some (1 ∷ 32 ∷ 2 ∷ 0 ∷ []) }

abbrev payload : Segment
payload = record { om_len = 2; om_data = some (170 ∷ 187 ∷ []) }

chain-IsFull : All IsFull (header ∷ payload ∷ [])
unfolding IsFull
chain-IsFull = ((_, refl, refl), ((_, refl, refl), tt))

receive-ble_transport_to_ll_acl_impl_example :
    (frame : List ℕ) × (ble_transport_to_ll_acl_impl nimble try_send (header ∷ payload ∷ []) []
      ≡ send_packet nimble try_send frame [])
    × (length frame ≤ buf_len)
    × (receive nimble stack frame ≡ delivered_acl (contents (header ∷ payload ∷ [])))
receive-ble_transport_to_ll_acl_impl_example =
    receive-ble_transport_to_ll_acl_impl nimble stack try_send header (payload ∷ []) [] 1 32 2 0
      (170 ∷ 187 ∷ []) chain-IsFull (unfold contents data_of in refl)
      (unfold u16_from_le_bytes in omega arith) (omega arith) refl refl refl

-- HOST_2_CONTROLLER_QUEUE.
abbrev queue_20 : Channel
queue_20 = record {
  Queue = List (List ℕ);
  new = [];
  try_send = λ p q. if ltb (length q) 20 then some (q ++ p ∷ []) else none;
  poll_receive = λ q. elim q [ [] ↦ none | p ∷ rest ↦ some (p, rest) ];
}

queue_20-receive :
    (p : List ℕ) (q q' : List (List ℕ)) → queue_20.poll_receive q ≡ some (p, q') → q ≡ p ∷ q'
queue_20-receive p [] q' e = cc
queue_20-receive p (x ∷ q) q' e = cc

queue_20-none : (q : List (List ℕ)) → queue_20.poll_receive q ≡ none → q ≡ []
queue_20-none [] e = refl
queue_20-none (x ∷ q) e = cc

queue_20-ChannelLaws : ChannelLaws queue_20
queue_20-ChannelLaws = record {
  contents = λ q. q;
  contents-new = refl;
  contents-try_send = λ p q q' e. ground arith;
  contents-receive = queue_20-receive;
  receive-none = queue_20-none;
}

-- A command is sent and forwarded, a null pointer is refused, and a second command waits.
abbrev calls : List (Call × ℕ)
calls = (cmd (some reset_cmd), 0) ∷ (cmd none, 3) ∷ (cmd (some reset_cmd), 0) ∷ []

abbrev link : Link queue_20
link = record { queue = (1 ∷ 3 ∷ 12 ∷ 1 ∷ 5 ∷ []) ∷ []; sent = (1 ∷ 3 ∷ 12 ∷ 1 ∷ 5 ∷ []) ∷ [] }

link-Reachable : Reachable queue_20 nimble calls link
unfolding call transport_task_tx ble_transport_to_ll_cmd_impl initial
link-Reachable =
    called (cmd (some reset_cmd)) (called (cmd none) (turn (called (cmd (some reset_cmd)) begin)))

Reachable-accepted_example : accepted calls ≡ link.sent ++ link.queue
unfolding queue_20-ChannelLaws
Reachable-accepted_example =
    Reachable-accepted queue_20 queue_20-ChannelLaws nimble (omega arith) (omega arith)
      link-Reachable

turns-accepted_example : (turns queue_20 queue_20-ChannelLaws nimble 1 link).sent ≡ accepted calls
unfolding queue_20-ChannelLaws
turns-accepted_example =
    turns-accepted queue_20 queue_20-ChannelLaws nimble (omega arith) (omega arith) 1 link-Reachable
      (omega arith)
