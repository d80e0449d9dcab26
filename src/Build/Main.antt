-- ===== src/Build/Main.antt =====
-- build.rs, `main`: what is compiled and told to cargo, by the security settings.
pub mod Laws
use Prim.Native.String.{String}
use text.Mathlib.Text.{◌==◌}
use esp_nimble_host.Prelude.{
  ℕ, ◌≡◌, refl, ap, ◌∙◌, inl, inr, Bool, true, false, ◌||◌, List, [], ◌∷◌, ◌++◌, some, map,
  if◌then◌else◌, All, All-get, Bool-cases,
}
use esp_nimble_host.Build.Config.{SecurityConfig, NimbleConfig}
use esp_nimble_host.Build.Header.{as_u8, generate_syscfg_override}
use esp_nimble_host.Build.Header.Macros.{definitions, number_of}
use esp_nimble_host.Build.Header.Laws.{macros, generate_syscfg_override-macros}

pub security_manager : SecurityConfig → Bool
security_manager security = security.legacy || security.sc

-- The lines for cargo that set the `nimble_sm` cfg of the crate.
pub cfg_lines : SecurityConfig → List String
unfolding security_manager
cfg_lines security =
    "cargo::rustc-check-cfg=cfg(nimble_sm)"
    ∷ (if security_manager security then "cargo::rustc-cfg=nimble_sm" ∷ [] else [])

-- The include directories, those of NimBLE as paths in its tree.
pub include_dirs : String → SecurityConfig → List String
unfolding security_manager
include_dirs stubs_dir security =
    (stubs_dir ∷ "nimble/include" ∷ "nimble/host/include" ∷ "porting/nimble/include"
      ∷ "nimble/transport/include" ∷ [])
    ++ (if security_manager security then "ext/tinycrypt/include" ∷ [] else [])

abbrev pub manager_sources : List String
manager_sources = "ext/tinycrypt/src/aes_encrypt.c" ∷ "ext/tinycrypt/src/utils.c" ∷ []

abbrev pub secure_connections_sources : List String
secure_connections_sources =
    "ext/tinycrypt/src/cmac_mode.c" ∷ "ext/tinycrypt/src/ecc.c" ∷ "ext/tinycrypt/src/ecc_dh.c" ∷ []

-- The C files, as paths in NimBLE's tree; `host_sources` are those that the walk of
-- nimble/host/src finds.
pub c_files : List String → SecurityConfig → List String
unfolding security_manager
c_files host_sources security =
    host_sources
    ++ (("porting/nimble/src/endian.c" ∷ "porting/nimble/src/os_mbuf.c"
          ∷ "porting/nimble/src/os_mempool.c" ∷ "porting/nimble/src/os_msys.c"
          ∷ "porting/nimble/src/mem.c" ∷ "porting/nimble/src/nimble_port.c"
          ∷ "nimble/transport/src/transport.c" ∷ [])
        ++ ((if security_manager security then manager_sources else [])
            ++ (if security.sc then secure_connections_sources else [])))
