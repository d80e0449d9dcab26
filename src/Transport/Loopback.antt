-- ===== src/Transport/Loopback.antt =====
-- The two directions of the transport of src/lib.rs, one after the other.
use esp_nimble_host.Prelude.{
  ℕ, zero, suc, ◌+◌, ◌<◌, ◌≤◌, ◌≡◌, refl, sym, ap, ◌∙◌, subst, Option, List, [], ◌∷◌, arith, length,
  take, All,
}
use esp_nimble_host.Bindings.{Bindings}
use esp_nimble_host.Transport.{h4_acl, u16_from_le_bytes}
use esp_nimble_host.Transport.Receive.{HostStack, buf_len, receive, delivered_acl}
use esp_nimble_host.Transport.Receive.Laws.{receive-delivered_acl}
use esp_nimble_host.Transport.Send.{Segment, send_packet, ble_transport_to_ll_acl_impl}
use esp_nimble_host.Transport.Send.Laws.{contents, IsFull, ble_transport_to_ll_acl_impl-contents}

take-all : (n : ℕ) (xs : List ℕ) → n ≡ length xs → take n xs ≡ xs
take-all zero [] h = refl
take-all zero (x ∷ xs) h = absurd (ground arith)
take-all (suc n) [] h = absurd (ground arith)
take-all (suc n) (x ∷ xs) h = ap (λ t. x ∷ t) (take-all n xs (omega arith))

module _ (b : Bindings) (S : HostStack) {Queue : Type 0}
    (try_send : List ℕ → Queue → Option Queue) where
  open S use {os_mbuf_append, to_hs_acl}

  -- An ACL packet of at most 511 bytes, of the length that its header states and in whatever
  -- segments, is sent as one frame that fits the buffer of the receiving task, and from it the
  -- receiving side of another host delivers the same bytes, when its stack takes them.
  pub receive-ble_transport_to_ll_acl_impl :
      (s : Segment) (chain : List Segment) (queue : Queue) (h0 h1 l0 l1 : ℕ) (payload : List ℕ)
      → All IsFull (s ∷ chain)
      → contents (s ∷ chain) ≡ h0 ∷ h1 ∷ l0 ∷ l1 ∷ payload
      → u16_from_le_bytes l0 l1 ≡ length payload
      → length payload + 4 < buf_len
      → os_mbuf_append [] (h0 ∷ h1 ∷ l0 ∷ l1 ∷ []) ≡ 0
      → os_mbuf_append (h0 ∷ h1 ∷ l0 ∷ l1 ∷ []) payload ≡ 0
      → to_hs_acl (h0 ∷ h1 ∷ l0 ∷ l1 ∷ payload) ≡ 0
      → (frame : List ℕ) × (ble_transport_to_ll_acl_impl b try_send (s ∷ chain) queue
          ≡ send_packet b try_send frame queue)
        × (length frame ≤ buf_len)
        × (receive b S frame ≡ delivered_acl (contents (s ∷ chain)))
  receive-ble_transport_to_ll_acl_impl s chain queue h0 h1 l0 l1 payload f c n m a a' d =
      let t = take-all (u16_from_le_bytes l0 l1) payload n in
      (
        h4_acl ∷ contents (s ∷ chain),
        ble_transport_to_ll_acl_impl-contents b try_send s chain queue f
            (subst (λ xs. 4 ≤ length xs) (sym c) (omega arith)),
        rw c (omega arith),
        rw c (
            receive-delivered_acl b S h0 h1 l0 l1 payload (omega arith) a
              (ap (os_mbuf_append (h0 ∷ h1 ∷ l0 ∷ l1 ∷ [])) t ∙ a')
              (ap (λ xs. to_hs_acl (h0 ∷ h1 ∷ l0 ∷ l1 ∷ xs)) t ∙ d)
            ∙ ap (λ xs. delivered_acl (h0 ∷ h1 ∷ l0 ∷ l1 ∷ xs)) t),
      )
