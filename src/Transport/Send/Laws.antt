-- ===== src/Transport/Send/Laws.antt =====
-- What the controller gets for a command and for an mbuf chain (src/lib.rs).
use esp_nimble_host.Prelude.{
  ℕ, ◌%◌, ◌≤◌, ◌<◌, ◌≡◌, refl, sym, ap, ◌&&◌, Option, none, some, List, [], ◌∷◌, ◌++◌, arith, ◌==◌,
  if◌then◌else◌, length, take, All, eq→==, ne→==, lt→ltb, le→ltb, length-append, length-take,
}
use esp_nimble_host.Bindings.{Bindings}
use esp_nimble_host.Transport.{h4_acl, h4_cmd, u16_from_le_bytes, u16_to_le_bytes}
use esp_nimble_host.Transport.Send.{
  segment_bytes, HciCmd, Segment, cmd_packet, ble_transport_to_ll_cmd_impl,
  ble_transport_to_ll_acl_impl, total_len, copied, send_packet,
}

-- How the controller reads a command: the opcode, and as many parameters as the length byte says.
pub parse_cmd : List ℕ → Option (ℕ × List ℕ)
parse_cmd (t ∷ low ∷ high ∷ n ∷ params) =
    if (t == h4_cmd) && (n == length params)
    then some (u16_from_le_bytes low high, params)
    else none
parse_cmd _ = none

unfoldable pub data_of : Option (List ℕ) → List ℕ
data_of none = []
data_of (some bytes) = bytes

-- The bytes of a chain.
unfoldable pub contents : List Segment → List ℕ
unfolding data_of
contents [] = []
contents (s ∷ rest) = data_of s.om_data ++ contents rest

-- A segment has its data, of the length it states.
unfoldable pub IsFull : Segment → Type 0
IsFull s = (bytes : List ℕ) × (s.om_data ≡ some bytes) × (s.om_len ≡ length bytes)

take-length : (xs : List ℕ) → take (length xs) xs ≡ xs
take-length [] = refl
take-length (x ∷ xs) = ap (λ t. x ∷ t) (take-length xs)

take-append : (xs ys : List ℕ) → take (length xs) (xs ++ ys) ≡ xs
take-append [] ys = refl
take-append (x ∷ xs) ys = ap (λ t. x ∷ t) (take-append xs ys)

segment_bytes-full :
    (n : ℕ) (bytes : List ℕ) → n ≡ length bytes → segment_bytes n (some bytes) ≡ bytes
unfolding segment_bytes
segment_bytes-full n [] h = rw (eq→== n 0 h) refl
segment_bytes-full n (x ∷ xs) h = rw (ne→== n 0 (omega arith), h) (take-length (x ∷ xs))

copied-contents : (chain : List Segment) → All IsFull chain → copied chain ≡ contents chain
unfolding copied contents data_of IsFull
copied-contents [] f = refl
copied-contents (s ∷ rest) ((bytes, e, h), f) =
    rw (e, segment_bytes-full s.om_len bytes h, copied-contents rest f) refl

total_len-contents :
    (chain : List Segment) → All IsFull chain → total_len chain ≡ length (contents chain)
unfolding total_len contents data_of IsFull
total_len-contents [] f = refl
total_len-contents (s ∷ rest) ((bytes, e, h), f) =
    rw (e, h, total_len-contents rest f) (sym (length-append bytes (contents rest)))

parse_cmd-cmd_packet :
    (cmd : HciCmd)
    → cmd.length ≤ 255
    → cmd.length ≤ length cmd.params
    → parse_cmd (cmd_packet cmd) ≡ some (cmd.opcode, take cmd.length cmd.params)
unfolding parse_cmd cmd_packet u16_from_le_bytes u16_to_le_bytes
parse_cmd-cmd_packet cmd h k =
    rw
      (eq→== (cmd.length % 256) (length (take cmd.length cmd.params))
        (omega (arith, length-take cmd.length cmd.params)))
      (ap (λ o. some (o, take cmd.length cmd.params)) (omega arith))

module _ (b : Bindings) {Queue : Type 0} (try_send : List ℕ → Queue → Option Queue) where
  -- A command of at most 255 bytes of parameters, all of them in memory, is sent as one frame,
  -- from which the controller reads its opcode and its parameters.
  pub ble_transport_to_ll_cmd_impl-parse_cmd :
      (cmd : HciCmd) (queue : Queue)
      → cmd.length ≤ 255
      → cmd.length ≤ length cmd.params
      → (packet : List ℕ) × (ble_transport_to_ll_cmd_impl b try_send (some cmd) queue
          ≡ send_packet b try_send packet queue)
        × (parse_cmd packet ≡ some (cmd.opcode, take cmd.length cmd.params))
  unfolding ble_transport_to_ll_cmd_impl
  ble_transport_to_ll_cmd_impl-parse_cmd cmd queue h k =
      (cmd_packet cmd, rw (le→ltb 255 cmd.length h) refl, parse_cmd-cmd_packet cmd h k)

  -- A chain of at least the four bytes of an ACL header, in whatever segments, is sent as its
  -- packet type and its bytes.
  pub ble_transport_to_ll_acl_impl-contents :
      (s : Segment) (chain : List Segment) (queue : Queue)
      → All IsFull (s ∷ chain)
      → 4 ≤ length (contents (s ∷ chain))
      → ble_transport_to_ll_acl_impl b try_send (s ∷ chain) queue
        ≡ send_packet b try_send (h4_acl ∷ contents (s ∷ chain)) queue
  unfolding ble_transport_to_ll_acl_impl
  ble_transport_to_ll_acl_impl-contents s chain queue f h =
      rw
        (
          total_len-contents (s ∷ chain) f,
          le→ltb (length (contents (s ∷ chain))) 4 h,
          copied-contents (s ∷ chain) f,
        )
        refl

  -- A chain shorter than that is refused, and nothing is sent.
  ble_transport_to_ll_acl_impl_short :
      (s : Segment) (chain : List Segment) (queue : Queue)
      → All IsFull (s ∷ chain)
      → length (contents (s ∷ chain)) < 4
      → ble_transport_to_ll_acl_impl b try_send (s ∷ chain) queue ≡ (b.ble_hs_einval, queue)
  unfolding ble_transport_to_ll_acl_impl
  ble_transport_to_ll_acl_impl_short s chain queue f h =
      rw (total_len-contents (s ∷ chain) f, lt→ltb (length (contents (s ∷ chain))) 4 h) refl
