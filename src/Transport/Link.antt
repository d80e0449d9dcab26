-- ===== src/Transport/Link.antt =====
-- The way to the controller in src/lib.rs: the senders put frames into HOST_2_CONTROLLER_QUEUE, and
-- `transport_task_tx` takes them out and hands them to the radio.
pub mod Laws
use esp_nimble_host.Prelude.{
  ℕ, ◌+◌, ◌≡◌, ◌<◌, ◌≤◌, ◌≢◌, Option, none, some, List, [], ◌∷◌, ◌++◌, length,
}
use esp_nimble_host.Bindings.{Bindings}
use esp_nimble_host.Transport.Send.{
  HciCmd, Segment, ble_transport_to_ll_cmd_impl, ble_transport_to_ll_acl_impl,
}

-- embassy-sync's channel of byte vectors: `try_send`, and one poll of `receive`.
pub record Channel : Type 1 where
  pub Queue : Type 0
  pub new : Queue
  pub try_send : List ℕ → Queue → Option Queue
  pub poll_receive : Queue → Option (List ℕ × Queue)

-- What NimBLE asks for.
pub data Call : Type 0 where
  cmd : Option HciCmd → Call
  acl : List Segment → Call

module _ (C : Channel) where
  open C use {Queue, new, try_send, poll_receive}

  -- It keeps what was sent in order, and gives the oldest first.
  pub record ChannelLaws : Type 0 where
    pub contents : Queue → List (List ℕ)
    pub contents-new : contents new ≡ []
    pub contents-try_send :
        (p : List ℕ) (q q' : Queue) → try_send p q ≡ some q' → contents q' ≡ contents q ++ p ∷ []
    pub contents-receive :
        (p : List ℕ) (q q' : Queue) → poll_receive q ≡ some (p, q') → contents q ≡ p ∷ contents q'
    pub receive-none : (q : Queue) → poll_receive q ≡ none → contents q ≡ []

  -- The queue, and what the radio got from `send_hci`.
  pub record Link : Type 0 where
    pub queue : Queue
    pub sent : List (List ℕ)

  unfoldable pub initial : Link
  initial = record { queue = new; sent = [] }

  module _ (b : Bindings) where
    unfoldable pub call : Call → Queue → ℕ × Queue
    call (cmd buf) queue = ble_transport_to_ll_cmd_impl b try_send buf queue
    call (acl om) queue = ble_transport_to_ll_acl_impl b try_send om queue

    forward : Link → Option (List ℕ × Queue) → Link
    forward l none = l
    forward l (some (h2c_bytes, queue)) = record { queue = queue; sent = l.sent ++ h2c_bytes ∷ [] }

    -- One poll of `transport_task_tx`.
    unfoldable pub transport_task_tx : Link → Link
    unfolding forward
    transport_task_tx l = forward l (poll_receive l.queue)

    -- The calls that were made, with their results, and the link after them and after as many turns
    -- of the task, in any order.
    pub data Reachable : List (Call × ℕ) → Link → Type 0 where
      begin : Reachable [] initial
      called :
          {calls : List (Call × ℕ)} {l : Link} (c : Call)
          → Reachable calls l
          → Reachable
              (calls ++ (c, (call c l.queue).0) ∷ [])
              (record l { queue = (call c l.queue).1 })
      turn :
          {calls : List (Call × ℕ)} {l : Link}
          → Reachable calls l
          → Reachable calls (transport_task_tx l)
