-- ===== src/Build/Main/Laws.antt =====
-- The C sources and the cfg of build.rs against the header that it generates.
use Prim.Native.String.{String}
use text.Mathlib.Text.{◌==◌}
use esp_nimble_host.Prelude.{
  ℕ, ◌≡◌, refl, ap, ◌∙◌, inl, inr, Bool, false, ◌||◌, List, [], ◌∷◌, ◌++◌, some, map, All, All-get,
  Bool-cases,
}
use esp_nimble_host.Build.Config.{SecurityConfig, NimbleConfig}
use esp_nimble_host.Build.Header.{as_u8, generate_syscfg_override}
use esp_nimble_host.Build.Header.Macros.{definitions, number_of}
use esp_nimble_host.Build.Header.Laws.{macros, generate_syscfg_override-macros}
use esp_nimble_host.Build.Main.{security_manager, cfg_lines, include_dirs, c_files}

unfoldable pub elem : String → List String → Bool
elem s [] = false
elem s (t ∷ ts) = t == s || elem s ts

elem-append : (s : String) (xs ys : List String) → elem s (xs ++ ys) ≡ elem s xs || elem s ys
unfolding elem
elem-append s [] ys = refl
elem-append s (x ∷ xs) ys = elim (Bool-cases (x == s)) [
  | inl e ↦ rw e refl
  | inr e ↦ rw e (elem-append s xs ys)
]

-- What NimBLE's security manager needs of tinycrypt, and what its Secure Connections need.
abbrev pub sm_needs : List String
sm_needs = "ext/tinycrypt/src/aes_encrypt.c" ∷ "ext/tinycrypt/src/utils.c" ∷ []

abbrev pub sc_needs : List String
sc_needs =
    "ext/tinycrypt/src/cmac_mode.c" ∷ "ext/tinycrypt/src/ecc.c" ∷ "ext/tinycrypt/src/ecc_dh.c" ∷ []

-- The header defines the macro once, as the number.
abbrev pub IsDefined : NimbleConfig → String × ℕ → Type 0
IsDefined config m =
    map number_of (definitions m.0 (generate_syscfg_override config)) ≡ some m.1 ∷ []

sources-elem :
    (f : String) (host : List String) (security : SecurityConfig)
    → elem f host ≡ false
    → elem f (c_files host security) ≡ elem f (c_files [] security)
unfolding c_files
sources-elem f host security h =
    elem-append f host _ ∙ ap (λ b. b || elem f (c_files [] security)) h

built :
    (security : SecurityConfig)
    → All (λ f. elem f (c_files [] security) ≡ security.sc) sc_needs
      × All (λ f. elem f (c_files [] security) ≡ security.legacy || security.sc) sm_needs
unfolding c_files elem security_manager
built security = elim (Bool-cases security.legacy) [
  | inl l ↦ elim (Bool-cases security.sc) [
    | inl s ↦ rw (l, s) ((refl, (refl, (refl, tt))), (refl, (refl, tt)))
    | inr s ↦ rw (l, s) ((refl, (refl, (refl, tt))), (refl, (refl, tt)))
  ]
  | inr l ↦ elim (Bool-cases security.sc) [
    | inl s ↦ rw (l, s) ((refl, (refl, (refl, tt))), (refl, (refl, tt)))
    | inr s ↦ rw (l, s) ((refl, (refl, (refl, tt))), (refl, (refl, tt)))
  ]
]

-- The include directory and the line for cargo.
announced :
    (stubs_dir : String) (security : SecurityConfig)
    → (stubs_dir == "ext/tinycrypt/include") ≡ false
    → (elem "ext/tinycrypt/include" (include_dirs stubs_dir security)
        ≡ security.legacy || security.sc)
      × (elem "cargo::rustc-cfg=nimble_sm" (cfg_lines security) ≡ security.legacy || security.sc)
unfolding include_dirs cfg_lines elem security_manager
announced stubs_dir security k = elim (Bool-cases (security.legacy || security.sc)) [
  | inl e ↦ rw (k, e) (refl, refl)
  | inr e ↦ rw (k, e) (refl, refl)
]

-- What the header turns on is built: AES and the helpers of tinycrypt, its include directory and
-- the `nimble_sm` cfg exactly with one of the two pairing methods on, and its CMAC and curve
-- files exactly with Secure Connections on, when NimBLE's host has no file of such a path and the
-- stubs are not in tinycrypt's include directory. The two macros have the number 1 exactly when
-- their method is on.
pub c_files-security :
    (config : NimbleConfig) (stubs_dir : String) (host : List String)
    → All (λ f. elem f host ≡ false) (sm_needs ++ sc_needs)
    → (stubs_dir == "ext/tinycrypt/include") ≡ false
    → All (λ f. elem f (c_files host config.security) ≡ config.security.sc) sc_needs
      × All
          (λ f.
            elem f (c_files host config.security) ≡ config.security.legacy || config.security.sc)
          sm_needs
      × (elem "ext/tinycrypt/include" (include_dirs stubs_dir config.security)
          ≡ config.security.legacy || config.security.sc)
      × (elem "cargo::rustc-cfg=nimble_sm" (cfg_lines config.security)
          ≡ config.security.legacy || config.security.sc)
      × IsDefined config ("MYNEWT_VAL_BLE_SM_LEGACY", as_u8 config.security.legacy)
      × IsDefined config ("MYNEWT_VAL_BLE_SM_SC", as_u8 config.security.sc)
c_files-security config stubs_dir host (a, (u, (m, (e, (d, _))))) k =
    let (sc, sm) = built config.security in
    let (i, l) = announced stubs_dir config.security k in
    (
      (
        sources-elem _ host config.security m ∙ sc.0,
        (
          sources-elem _ host config.security e ∙ sc.1.0,
          (sources-elem _ host config.security d ∙ sc.1.1.0, tt),
        ),
      ),
      (
        sources-elem _ host config.security a ∙ sm.0,
        (sources-elem _ host config.security u ∙ sm.1.0, tt),
      ),
      i,
      l,
      All-get (IsDefined config) 21 ("MYNEWT_VAL_BLE_SM_LEGACY", as_u8 config.security.legacy)
          (macros config) refl (generate_syscfg_override-macros config).0,
      All-get (IsDefined config) 22 ("MYNEWT_VAL_BLE_SM_SC", as_u8 config.security.sc)
          (macros config) refl (generate_syscfg_override-macros config).0,
    )
