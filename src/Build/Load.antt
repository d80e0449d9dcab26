-- ===== src/Build/Load.antt =====
-- build.rs: the layers of the configuration and the checks on them.
pub mod Laws
use esp_nimble_host.Prelude.{
  ℕ, Bool, true, false, ◌&&◌, Option, none, some, Result, ok, err, ◌>>=◌, ◌>>◌, leb, if◌then◌else◌,
  map_err, ok_or,
}
use Prim.Native.String.{String}
use text.Mathlib.Text.{◌==◌}
use esp_nimble_host.Build.Table.{Table, merge_tables}
use esp_nimble_host.Build.Config.{NimbleConfig, try_into}

-- Why the build stops, with the file that the message names.
pub data Panic : Type 0 where
  failed_to_read failed_to_parse invalid_bundled invalid : String → Panic
  not_absolute not_a_file : String → Panic
  max_connections_out_of_range : ℕ → Panic

-- The machine that builds, and the toml crate: the variable NIMBLE_CONFIG_DIR and the files, and how
-- their text is parsed.
pub record Builder : Type 1 where
  pub Leaf : Type 0
  pub as_bool : Leaf → Option Bool
  pub as_u16 : Leaf → Option ℕ
  pub from_str : String → Option (Table Leaf)
  pub nimble_config_dir : Option String
  pub read_to_string : String → Option String
  pub join : String → String → String
  pub is_absolute : String → Bool
  pub is_file : String → Bool

module _ (B : Builder) (cargo_manifest_dir : String) where
  open B use {Leaf, as_bool, as_u16, from_str, nimble_config_dir, read_to_string}
  open B use {join, is_absolute, is_file}

  abbrev pub bundled_path : String
  bundled_path = join cargo_manifest_dir "nimble-config.toml"

  unfoldable pub read_config_table : String → Result (Table Leaf) Panic
  read_config_table path = do
    content ← ok_or (failed_to_read path) (read_to_string path)
    ok_or (failed_to_parse path) (from_str content)

  -- `assert!`
  abbrev pub assert : Bool → Panic → Result (Unit {0}) Panic
  assert true p = ok tt
  assert false p = err p

  -- `filter(|dir| !dir.is_empty())`
  abbrev pub non_empty : Option String → Option String
  non_empty none = none
  non_empty (some dir) = if dir == "" then none else some dir

  -- The merged table and the path of the project file, if there is one.
  unfoldable pub overlaid : Table Leaf → Option String → Result (Table Leaf × Option String) Panic
  overlaid config none = ok (config, none)
  overlaid config (some dir) = do
    assert (is_absolute dir) (not_absolute dir)
    let path = join dir "nimble-config.toml"
    assert (is_file path) (not_a_file path)
    overlay ← read_config_table path
    ok (merge_tables config overlay, some path)

  abbrev pub source_of : Option String → String
  source_of none = bundled_path
  source_of (some path) = path

  unfoldable pub load_config : Result NimbleConfig Panic
  unfolding read_config_table overlaid
  load_config = do
    config ← read_config_table bundled_path
    bundled ← map_err (λ e. invalid_bundled bundled_path) (try_into as_bool as_u16 config)
    (merged, override_path) ← overlaid config (non_empty nimble_config_dir)
    loaded ← map_err (λ e. invalid (source_of override_path)) (try_into as_bool as_u16 merged)
    let max_connections = loaded.connections.max_connections
    assert (leb 1 max_connections && leb max_connections 70)
        (max_connections_out_of_range max_connections)
    ok loaded
