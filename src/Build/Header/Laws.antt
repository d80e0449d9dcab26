-- ===== src/Build/Header/Laws.antt =====
-- The macros that the header of build.rs defines.
use Prim.Native.String.{String}
use esp_nimble_host.Prelude.{
  All-append, ◌%◌, ◌/◌, ℕ, zero, suc, ◌+◌, ◌-◌, ◌*◌, ◌≡◌, ◌≤◌, refl, ap, ◌∙◌, some, List, [], ◌∷◌,
  ◌++◌, map, ltb, if◌then◌else◌, arith, All, Bool-cases, inl, inr,
}
use esp_nimble_host.Build.Config.{NimbleConfig}
use esp_nimble_host.Build.Header.{suc, codes, as_u8, digits, decimal, generate_syscfg_override}
use esp_nimble_host.Build.Header.Macros.{definitions, read_digits, number_of}

abbrev value_from : ℕ → List ℕ → ℕ
value_from acc [] = acc
value_from acc (c ∷ cs) = value_from (acc * 10 + (c - 48)) cs

abbrev Digits : List ℕ → Type 0
Digits = All (λ c. (48 ≤ c) × (c ≤ 57))

value_from-append :
    (acc d : ℕ) (xs : List ℕ) → value_from acc (xs ++ d ∷ []) ≡ value_from acc xs * 10 + (d - 48)
value_from-append acc d [] = refl
value_from-append acc d (x ∷ xs) = value_from-append (acc * 10 + (x - 48)) d xs

digits-Digits : (fuel n : ℕ) → n ≤ fuel → Digits (digits fuel n)
unfolding digits
digits-Digits zero n h = (omega arith, tt)
digits-Digits (suc fuel) n h = elim (Bool-cases (ltb n 10)) [
  | inl e ↦ rw e (ground arith, tt)
  | inr e ↦ rw e (
      All-append _ (digits fuel (n / 10)) _ (digits-Digits fuel (n / 10) (omega arith))
        (omega arith, tt))
]

digits_value : (fuel n : ℕ) → n ≤ fuel → value_from 0 (digits fuel n) ≡ n
unfolding digits
digits_value zero n h = omega arith
digits_value (suc fuel) n h = elim (Bool-cases (ltb n 10)) [
  | inl e ↦ rw e (omega arith)
  | inr e ↦ rw e (
      omega (
        arith,
        value_from-append 0 (48 + n % 10) (digits fuel (n / 10)),
        digits_value fuel (n / 10) (omega arith),
      ))
]

digits_cons : (fuel n : ℕ) → (d : ℕ) × (ds : List ℕ) × (digits fuel n ≡ d ∷ ds)
unfolding digits
digits_cons zero n = (48 + n, [], refl)
digits_cons (suc fuel) n = elim (Bool-cases (ltb n 10)) [
  | inl e ↦ (48 + n, [], rw e refl)
  | inr e ↦
      let (d, ds, p) = digits_cons fuel (n / 10) in (d, ds ++ (48 + n % 10) ∷ [], rw (e, p) refl)
]

read_digits-value :
    (acc : ℕ) (xs : List ℕ)
    → Digits xs
    → read_digits acc (xs ++ codes ")") ≡ some (value_from acc xs)
unfolding read_digits
read_digits-value acc [] h = refl
read_digits-value acc (x ∷ xs) (h, hs) =
    ground (arith, read_digits-value (acc * 10 + (x - 48)) xs hs)

-- `(n)`
abbrev body : ℕ → List ℕ
body n = codes "(" ++ (decimal n ++ codes ")")

number_of-Digits :
    (xs : List ℕ) (d : ℕ) (ds : List ℕ)
    → xs ≡ d ∷ ds
    → Digits xs
    → number_of (codes "(" ++ (xs ++ codes ")")) ≡ some (value_from 0 xs)
unfolding number_of
number_of-Digits [] d ds e h = cc
number_of-Digits (x ∷ xs) d ds e (h, hs) = ground (arith, read_digits-value (x - 48) xs hs)

number_of-decimal : (n : ℕ) → number_of (body n) ≡ some n
unfolding decimal
number_of-decimal n =
    let (d, ds, p) = digits_cons n n in
    number_of-Digits (digits n n) d ds p (digits-Digits n n (omega arith))
    ∙ ap some (digits_value n n (omega arith))

-- A tuple that is nested to the right.
infixr 3 ◌&◌
abbrev ◌&◌ {ℓ κ} : {A : Type ℓ} {B : Type κ} → A → B → A × B
a & b = (a, b)

-- The macros of the header with one number each.
abbrev pub macros : NimbleConfig → List (String × ℕ)
macros c =
    ("MYNEWT_VAL_BLE_ROLE_CENTRAL", as_u8 c.roles.central)
    ∷ ("MYNEWT_VAL_BLE_ROLE_OBSERVER", as_u8 c.roles.observer)
    ∷ ("MYNEWT_VAL_BLE_ROLE_PERIPHERAL", as_u8 c.roles.peripheral)
    ∷ ("MYNEWT_VAL_BLE_ROLE_BROADCASTER", as_u8 c.roles.broadcaster)
    ∷ ("MYNEWT_VAL_BLE_MAX_CONNECTIONS", c.connections.max_connections)
    ∷ ("MYNEWT_VAL_BLE_TRANSPORT_ACL_COUNT", c.transport.acl_count)
    ∷ ("MYNEWT_VAL_BLE_TRANSPORT_ACL_FROM_HS_COUNT", c.transport.acl_count)
    ∷ ("MYNEWT_VAL_BLE_TRANSPORT_ACL_FROM_LL_COUNT", c.transport.acl_count)
    ∷ ("MYNEWT_VAL_BLE_TRANSPORT_ACL_SIZE", c.transport.acl_size)
    ∷ ("MYNEWT_VAL_BLE_TRANSPORT_EVT_COUNT", c.transport.evt_count)
    ∷ ("MYNEWT_VAL_BLE_TRANSPORT_EVT_DISCARDABLE_COUNT", c.transport.evt_discardable_count)
    ∷ ("MYNEWT_VAL_BLE_TRANSPORT_EVT_SIZE", c.transport.evt_size)
    ∷ ("MYNEWT_VAL_MSYS_1_BLOCK_COUNT", c.msys.block_count)
    ∷ ("MYNEWT_VAL_MSYS_1_BLOCK_SIZE", c.msys.block_size)
    ∷ ("MYNEWT_VAL_BLE_ATT_PREFERRED_MTU", c.gatt.preferred_mtu)
    ∷ ("MYNEWT_VAL_BLE_GATT_MAX_PROCS", c.gatt.max_procs)
    ∷ ("MYNEWT_VAL_BLE_ATT_SVR_MAX_PREP_ENTRIES", c.gatt.max_prep_entries)
    ∷ ("MYNEWT_VAL_BLE_GATT_RESUME_RATE", c.gatt.resume_rate_ms)
    ∷ ("MYNEWT_VAL_BLE_L2CAP_SIG_MAX_PROCS", c.l2cap.max_sig_procs)
    ∷ ("MYNEWT_VAL_BLE_STORE_MAX_BONDS", c.storage.max_bonds)
    ∷ ("MYNEWT_VAL_BLE_STORE_MAX_CCCDS", c.storage.max_cccds)
    ∷ ("MYNEWT_VAL_BLE_SM_LEGACY", as_u8 c.security.legacy)
    ∷ ("MYNEWT_VAL_BLE_SM_SC", as_u8 c.security.sc)
    ∷ ("MYNEWT_VAL_BLE_SM_MITM", as_u8 c.security.mitm)
    ∷ ("MYNEWT_VAL_BLE_SM_BONDING", as_u8 c.security.bonding)
    ∷ ("MYNEWT_VAL_BLE_SM_MAX_PROCS", c.security.max_procs)
    ∷ ("MYNEWT_VAL_BLE_SM_OUR_KEY_DIST", 0)
    ∷ ("MYNEWT_VAL_BLE_SM_THEIR_KEY_DIST", 0)
    ∷ []

abbrev max_chans : NimbleConfig → List ℕ
max_chans c =
    if ltb 0 c.l2cap.max_channels
    then body c.l2cap.max_channels
    else codes "(3*MYNEWT_VAL_BLE_MAX_CONNECTIONS)"

definitions-macros :
    (c : NimbleConfig)
    → All (λ m. definitions m.0 (generate_syscfg_override c) ≡ body m.1 ∷ []) (macros c)
      × (definitions "MYNEWT_VAL_BLE_L2CAP_MAX_CHANS" (generate_syscfg_override c)
          ≡ max_chans c ∷ [])
unfolding definitions generate_syscfg_override decimal
definitions-macros c = elim (Bool-cases (ltb 0 c.l2cap.max_channels)) [
  | inl e ↦ rw e (
    refl & refl & refl & refl & refl & refl & refl & refl & refl & refl & refl & refl & refl & refl
        & refl & refl & refl & refl & refl & refl & refl & refl & refl & refl & refl & refl & refl
        & refl & tt,
    refl,
  )
  | inr e ↦ rw e (
    refl & refl & refl & refl & refl & refl & refl & refl & refl & refl & refl & refl & refl & refl
        & refl & refl & refl & refl & refl & refl & refl & refl & refl & refl & refl & refl & refl
        & refl & tt,
    refl,
  )
]

numbers :
    (h : List (List ℕ)) (ms : List (String × ℕ))
    → All (λ m. definitions m.0 h ≡ body m.1 ∷ []) ms
    → All (λ m. map number_of (definitions m.0 h) ≡ some m.1 ∷ []) ms
numbers h [] a = tt
numbers h ((name, n) ∷ ms) (e, es) =
    (ap (map number_of) e ∙ ap (λ o. o ∷ []) (number_of-decimal n), numbers h ms es)

-- The header defines each macro exactly once, as the number that the configuration has for it, and
-- the L2CAP channels as three for each connection when the configuration has 0 for them.
pub generate_syscfg_override-macros :
    (c : NimbleConfig)
    → All
        (λ m. map number_of (definitions m.0 (generate_syscfg_override c)) ≡ some m.1 ∷ [])
        (macros c)
      × (definitions "MYNEWT_VAL_BLE_L2CAP_MAX_CHANS" (generate_syscfg_override c)
          ≡ max_chans c ∷ [])
generate_syscfg_override-macros c =
    let d = definitions-macros c in (numbers (generate_syscfg_override c) (macros c) d.0, d.1)
