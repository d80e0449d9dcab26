-- ===== src/Transport/Receive/Laws.antt =====
-- Which packets reach the host, and which crash the task (src/lib.rs).
use esp_nimble_host.ReturnCode.Laws.{return_code_to_result_done}
use esp_nimble_host.Error.{NimbleResult}
use esp_nimble_host.Prelude.{
  ne→==, lt→leb, lt-or-le, ◌%◌, inr, leb, inl, ◌∙◌, ◌&&◌, ltb, Bool-cases, ◌==◌, ℕ, ◌+◌, ◌-◌, ◌≤◌,
  ◌<◌, ◌≡◌, refl, Bool, true, false, some, List, [], ◌∷◌, ◌++◌, arith, ok, err, length, take,
  lt→ltb, le→ltb, le→leb,
}
use esp_nimble_host.Bindings.{Bindings}
use esp_nimble_host.ReturnCode.{return_code_to_result}
use esp_nimble_host.Transport.{h4_acl, h4_evt, slice, u16_from_le_bytes}
use esp_nimble_host.Transport.Receive.{
  fill_event, receive_event_sized, receive, receive_event, ble_transport_to_hs_evt, deliver_acl,
  fill_mbuf, receive_sized, append_payload, receive_lengths, append_hdr, Received, panicked,
  dropped, freed, overrun, delivered_acl, delivered_event, HostStack, receive_acl,
}

module _ (b : Bindings) (S : HostStack) where
  open S use {os_mbuf_append, to_hs_acl, to_hs_evt}

  -- Whether a packet crashes the task.
  unfoldable pub crashes : Received → Bool
  crashes panicked = true
  crashes dropped = false
  crashes freed = false
  crashes overrun = false
  crashes (delivered_acl om) = false
  crashes (delivered_event opcode len payload) = false

  append_hdr-crashes :
      (hdr payload : List ℕ) (r : NimbleResult (Unit {0}))
      → crashes (append_hdr b S hdr (some payload) r) ≡ false
  unfolding append_hdr append_payload deliver_acl crashes
  append_hdr-crashes hdr payload (err e) = refl
  append_hdr-crashes hdr payload (ok _) =
      elim (return_code_to_result b (os_mbuf_append hdr payload) tt)
        as (λ r. crashes (append_payload b S hdr payload r) ≡ false) [
          | err e ↦ refl
          | ok _ ↦
              elim (return_code_to_result b (to_hs_acl (hdr ++ payload)) tt)
                as (λ r. crashes (deliver_acl b S (hdr ++ payload) r) ≡ false) [
                  | err e ↦ refl
                  | ok _ ↦ refl
                ]
        ]

  minus-5 : (n : ℕ) → 5 + n - 5 ≡ n
  minus-5 n = omega arith

  slice-payload :
      (t h0 h1 l0 l1 n : ℕ) (rest : List ℕ)
      → n ≤ length rest
      → slice 5 (5 + n) (t ∷ h0 ∷ h1 ∷ l0 ∷ l1 ∷ rest) ≡ some (take n rest)
  unfolding slice
  slice-payload t h0 h1 l0 l1 n rest h =
      rw
        (
          le→leb 5 (5 + n) (omega arith),
          le→leb (5 + n) (length (t ∷ h0 ∷ h1 ∷ l0 ∷ l1 ∷ rest)) (omega arith),
          minus-5 n,
        )
        refl

  -- A packet of the length that its header gives, or longer.
  receive_acl-filled :
      (t h0 h1 l0 l1 : ℕ) (rest : List ℕ)
      → u16_from_le_bytes l0 l1 ≤ length rest
      → receive_acl b S (t ∷ h0 ∷ h1 ∷ l0 ∷ l1 ∷ rest)
        ≡ append_hdr b S
            (h0 ∷ h1 ∷ l0 ∷ l1 ∷ [])
            (some (take (u16_from_le_bytes l0 l1) rest))
            (return_code_to_result b (os_mbuf_append [] (h0 ∷ h1 ∷ l0 ∷ l1 ∷ [])) tt)
  unfolding receive_acl receive_lengths receive_sized fill_mbuf slice
  receive_acl-filled t h0 h1 l0 l1 rest h =
      rw
        (
          le→ltb (length (t ∷ h0 ∷ h1 ∷ l0 ∷ l1 ∷ rest)) 5 (omega arith),
          le→leb 3 (length (t ∷ h0 ∷ h1 ∷ l0 ∷ l1 ∷ rest)) (omega arith),
          le→leb 5 (length (t ∷ h0 ∷ h1 ∷ l0 ∷ l1 ∷ rest)) (omega arith),
          le→ltb (length (t ∷ h0 ∷ h1 ∷ l0 ∷ l1 ∷ rest)) (5 + u16_from_le_bytes l0 l1)
              (omega arith),
          slice-payload t h0 h1 l0 l1 (u16_from_le_bytes l0 l1) rest h,
        )
        refl

  receive_acl-truncated :
      (t h0 h1 l0 l1 : ℕ) (rest : List ℕ)
      → length rest < u16_from_le_bytes l0 l1
      → receive_acl b S (t ∷ h0 ∷ h1 ∷ l0 ∷ l1 ∷ rest) ≡ dropped
  unfolding receive_acl receive_lengths receive_sized
  receive_acl-truncated t h0 h1 l0 l1 rest h =
      rw
        (
          le→ltb (length (t ∷ h0 ∷ h1 ∷ l0 ∷ l1 ∷ rest)) 5 (omega arith),
          lt→ltb (length (t ∷ h0 ∷ h1 ∷ l0 ∷ l1 ∷ rest)) (5 + u16_from_le_bytes l0 l1)
              (omega arith),
        )
        refl

  crashes-receive_acl : (t : ℕ) (rest : List ℕ) → crashes (receive_acl b S (t ∷ rest)) ≡ false
  unfolding receive_acl crashes
  crashes-receive_acl t [] = refl
  crashes-receive_acl t (h0 ∷ []) = refl
  crashes-receive_acl t (h0 ∷ h1 ∷ []) = refl
  crashes-receive_acl t (h0 ∷ h1 ∷ l0 ∷ []) = refl
  crashes-receive_acl t (h0 ∷ h1 ∷ l0 ∷ l1 ∷ rest) =
      elim (lt-or-le (length rest) (u16_from_le_bytes l0 l1)) [
        | inl h ↦ rw (receive_acl-truncated t h0 h1 l0 l1 rest h) refl
        | inr h ↦
            rw (receive_acl-filled t h0 h1 l0 l1 rest h)
              (append_hdr-crashes (h0 ∷ h1 ∷ l0 ∷ l1 ∷ []) (take (u16_from_le_bytes l0 l1) rest) _)
      ]

  crashes-ble_transport_to_hs_evt :
      (opcode : ℕ) (payload : List ℕ) → crashes (ble_transport_to_hs_evt b S opcode payload) ≡ false
  unfolding ble_transport_to_hs_evt crashes
  crashes-ble_transport_to_hs_evt opcode payload =
      elim (Bool-cases (ltb (b.ble_transport_evt_size - 2) (length payload))) [
        | inl e ↦ rw e refl
        | inr e ↦ elim (Bool-cases (to_hs_evt opcode (length payload % 256) payload == 0)) [
          | inl e' ↦ rw (e, e') refl
          | inr e' ↦ rw (e, e') refl
        ]
      ]

  crashes-receive_event :
      (t : ℕ) (rest : List ℕ) → crashes (receive_event b S (t ∷ rest)) ≡ leb (length rest) 1
  unfolding receive_event receive_event_sized fill_event slice crashes
  crashes-receive_event t [] = refl
  crashes-receive_event t (a ∷ []) = refl
  crashes-receive_event t (a ∷ n ∷ rest) =
      elim (Bool-cases (ltb (b.ble_transport_evt_size - 2) n)) [
        | inl e ↦ rw (e, lt→leb (length (a ∷ n ∷ rest)) 1 (omega arith)) refl
        | inr e ↦
            rw
              (
                e,
                le→leb 3 (length (t ∷ a ∷ n ∷ rest)) (omega arith),
                le→leb (length (t ∷ a ∷ n ∷ rest)) (length (t ∷ a ∷ n ∷ rest)) (omega arith),
                lt→leb (length (a ∷ n ∷ rest)) 1 (omega arith),
              )
              (crashes-ble_transport_to_hs_evt a _)
      ]

  -- An event packet without its length byte.
  unfoldable pub short_event : List ℕ → Bool
  short_event [] = false
  short_event (t ∷ rest) = (t == h4_evt) && leb (length rest) 1

  -- No packet makes the task index out of bounds, except an event packet of one or two bytes.
  pub crashes-receive : (packet : List ℕ) → crashes (receive b S packet) ≡ short_event packet
  unfolding receive short_event crashes
  crashes-receive [] = refl
  crashes-receive (t ∷ rest) = elim (Bool-cases (t == h4_acl)) [
    | inl e ↦ rw (e, crashes-receive_acl t rest, ne→== t h4_evt (ground arith)) refl
    | inr e ↦ elim (Bool-cases (t == h4_evt)) [
      | inl e' ↦ rw (e, e') (crashes-receive_event t rest)
      | inr e' ↦ rw (e, e') refl
    ]
  ]

  -- An ACL packet that holds all the data that its header announces reaches the host as header
  -- and data, less the packet type and anything behind the data, when the stack takes it.
  pub receive-delivered_acl :
      (h0 h1 l0 l1 : ℕ) (rest : List ℕ)
      → u16_from_le_bytes l0 l1 ≤ length rest
      → os_mbuf_append [] (h0 ∷ h1 ∷ l0 ∷ l1 ∷ []) ≡ 0
      → os_mbuf_append (h0 ∷ h1 ∷ l0 ∷ l1 ∷ []) (take (u16_from_le_bytes l0 l1) rest) ≡ 0
      → to_hs_acl (h0 ∷ h1 ∷ l0 ∷ l1 ∷ take (u16_from_le_bytes l0 l1) rest) ≡ 0
      → receive b S (h4_acl ∷ h0 ∷ h1 ∷ l0 ∷ l1 ∷ rest)
        ≡ delivered_acl (h0 ∷ h1 ∷ l0 ∷ l1 ∷ take (u16_from_le_bytes l0 l1) rest)
  unfolding receive append_hdr append_payload deliver_acl
  receive-delivered_acl h0 h1 l0 l1 rest h a a' d =
      receive_acl-filled h4_acl h0 h1 l0 l1 rest h
      ∙ rw
          (
            a,
            return_code_to_result_done b 0 tt (inl refl),
            a',
            return_code_to_result_done b 0 tt (inl refl),
            d,
            return_code_to_result_done b 0 tt (inl refl),
          )
          refl
