-- ===== src/Transport/Link/Laws.antt =====
-- The frames that reach the radio, against the calls that succeeded (src/lib.rs).
use mathlib.Core.List.{append_assoc, append-nil}
use esp_nimble_host.Prelude.{
  zero, ◌≤◌, suc, length, ne→==, ℕ, ◌≡◌, ◌≢◌, refl, sym, ap, ◌∙◌, Option, none, some, List, [], ◌∷◌,
  ◌++◌, arith, ◌==◌, if◌then◌else◌, Bool-cases, Option-cases, inl, inr, ltb,
}
use esp_nimble_host.Bindings.{Bindings}
use esp_nimble_host.Transport.{h4_acl}
use esp_nimble_host.Transport.Send.{
  cmd_packet, copied, total_len, send_packet, ble_transport_to_ll_cmd_impl,
  ble_transport_to_ll_acl_impl,
}
use esp_nimble_host.Transport.Link.{
  Channel, ChannelLaws, Call, cmd, acl, Link, initial, call, forward, transport_task_tx, Reachable,
  begin, called, turn,
}

-- The frame of a call, for calls that have one.
abbrev pub frame : Call → List ℕ
frame (cmd none) = []
frame (cmd (some buf)) = cmd_packet buf
frame (acl om) = h4_acl ∷ copied om

-- The frames of the calls that returned 0, in order.
pub accepted : List (Call × ℕ) → List (List ℕ)
accepted [] = []
accepted ((c, rc) ∷ calls) = let rest = accepted calls in if rc == 0 then frame c ∷ rest else rest

accepted-append :
    (calls more : List (Call × ℕ)) → accepted (calls ++ more) ≡ accepted calls ++ accepted more
unfolding accepted
accepted-append [] more = refl
accepted-append ((c, rc) ∷ calls) more = ground (arith, accepted-append calls more)

module _ (C : Channel) (laws : ChannelLaws C) (b : Bindings) where
  open C use {Queue, try_send, poll_receive}
  open laws use {contents}

  -- A turn of the task moves the oldest frame.
  forward-keeps :
      (l : Link C) (o : Option (List ℕ × Queue))
      → poll_receive l.queue ≡ o
      → l.sent ++ contents l.queue ≡ (forward C b l o).sent ++ contents (forward C b l o).queue
  unfolding forward
  forward-keeps l none e = refl
  forward-keeps l (some (p, q)) e =
      ap (λ fs. l.sent ++ fs) (laws.contents-receive p l.queue q e)
      ∙ sym (append_assoc l.sent (p ∷ []) (contents q))

  pub turns : ℕ → Link C → Link C
  turns zero l = l
  turns (suc n) l = turns n (transport_task_tx C b l)

  turns-keeps :
      (n : ℕ) (l : Link C)
      → l.sent ++ contents l.queue ≡ (turns n l).sent ++ contents (turns n l).queue
  unfolding turns transport_task_tx
  turns-keeps zero l = refl
  turns-keeps (suc n) l =
      forward-keeps l (poll_receive l.queue) refl ∙ turns-keeps n (transport_task_tx C b l)

  forward_shrinks :
      (n : ℕ) (l : Link C) (o : Option (List ℕ × Queue))
      → poll_receive l.queue ≡ o
      → length (contents l.queue) ≤ suc n
      → length (contents (forward C b l o).queue) ≤ n
  unfolding forward
  forward_shrinks n l none e h = rw (laws.receive-none l.queue e) (omega arith)
  forward_shrinks n l (some (p, q)) e h =
      omega (arith, ap length (laws.contents-receive p l.queue q e))

  empty-length : (xs : List (List ℕ)) → length xs ≤ 0 → xs ≡ []
  empty-length [] h = refl
  empty-length (x ∷ xs) h = absurd (omega arith)

  turns-contents :
      (n : ℕ) (l : Link C) → length (contents l.queue) ≤ n → contents (turns n l).queue ≡ []
  unfolding turns transport_task_tx
  turns-contents zero l h = empty-length (contents l.queue) h
  turns-contents (suc n) l h =
      turns-contents n (transport_task_tx C b l) (forward_shrinks n l (poll_receive l.queue) refl h)

  module _ (einval : b.ble_hs_einval ≢ 0) (eagain : b.ble_hs_eagain ≢ 0) where
    -- What one call adds to the queue.
    abbrev Adds : List ℕ → Queue → ℕ × Queue → Type 0
    Adds p q r = contents r.1 ≡ contents q ++ (if r.0 == 0 then p ∷ [] else [])

    Adds-nothing : (p : List ℕ) (q : Queue) (rc : ℕ) → rc ≢ 0 → Adds p q (rc, q)
    Adds-nothing p q rc n = rw (ne→== rc 0 n) (sym (append-nil (contents q)))

    send_packet-Adds : (p : List ℕ) (q : Queue) → Adds p q (send_packet b try_send p q)
    unfolding send_packet
    send_packet-Adds p q = elim (Option-cases (try_send p q)) [
      | inl e ↦ rw (e, send_packet) (Adds-nothing p q b.ble_hs_eagain eagain)
      | inr (q', e) ↦ rw (e, send_packet) (laws.contents-try_send p q q' e)
    ]

    call-Adds : (c : Call) (q : Queue) → Adds (frame c) q (call C b c q)
    unfolding call ble_transport_to_ll_cmd_impl ble_transport_to_ll_acl_impl
    call-Adds (cmd none) q = Adds-nothing [] q b.ble_hs_einval einval
    call-Adds (cmd (some buf)) q = elim (Bool-cases (ltb 255 buf.length)) [
      | inl e ↦ rw e (Adds-nothing (cmd_packet buf) q b.ble_hs_einval einval)
      | inr e ↦ rw e (send_packet-Adds (cmd_packet buf) q)
    ]
    call-Adds (acl []) q = Adds-nothing _ q b.ble_hs_einval einval
    call-Adds (acl (s ∷ rest)) q = elim (Bool-cases (ltb (total_len (s ∷ rest)) 4)) [
      | inl e ↦ rw e (Adds-nothing (h4_acl ∷ copied (s ∷ rest)) q b.ble_hs_einval einval)
      | inr e ↦ rw e (send_packet-Adds (h4_acl ∷ copied (s ∷ rest)) q)
    ]

    -- The frames of the calls that returned 0 are, in the order of the calls, those that the radio got
    -- and then those that are still queued: none is lost, doubled or overtaken.
    pub Reachable-accepted :
        {calls : List (Call × ℕ)} {l : Link C}
        → Reachable C b calls l
        → accepted calls ≡ l.sent ++ contents l.queue
    unfolding accepted initial transport_task_tx
    Reachable-accepted begin = ap (λ c. c) (sym laws.contents-new)
    Reachable-accepted (called {calls} {l} c r) =
        accepted-append calls ((c, (call C b c l.queue).0) ∷ [])
        ∙ ap (λ fs. fs ++ accepted ((c, (call C b c l.queue).0) ∷ [])) (Reachable-accepted r)
        ∙ append_assoc l.sent (contents l.queue) _
        ∙ ap (λ fs. l.sent ++ fs) (sym (call-Adds c l.queue))
    Reachable-accepted (turn {calls} {l} r) =
        Reachable-accepted r ∙ forward-keeps l (poll_receive l.queue) refl

    -- After as many turns as frames are queued, the radio got the frames of all calls that returned 0,
    -- in their order.
    pub turns-accepted :
        {calls : List (Call × ℕ)} {l : Link C} (n : ℕ)
        → Reachable C b calls l
        → length (contents l.queue) ≤ n
        → (turns n l).sent ≡ accepted calls
    turns-accepted {l = l} n r h =
        sym (append-nil (turns n l).sent)
        ∙ ap (λ fs. (turns n l).sent ++ fs) (sym (turns-contents n l h))
        ∙ sym (turns-keeps n l)
        ∙ sym (Reachable-accepted r)
