-- ===== src/Build/Load/Laws.antt =====
-- What a configuration that build.rs accepts holds.
use esp_nimble_host.Build.Config.Laws.{try_into-Holds}
use esp_nimble_host.Build.Table.Laws.{setting-merge_tables, or_else, IsMap, setting}
use esp_nimble_host.Build.Config.Entries.{number, entries, Holds, flag, Reads, Setting, bind}
use esp_nimble_host.Prelude.{
  sym, ok_or, All, true, some, subst, none, List, map_err-eq-ok, map_err, >>=-ok, ◌≤◌, ◌≡◌, refl,
  [], ◌∷◌, ap, ◌∙◌, Option, arith, ok,
}
use Prim.Native.String.{String}
use esp_nimble_host.Build.Table.{table, merge_tables, Table}
use esp_nimble_host.Build.Config.{NimbleConfig, try_into}
use esp_nimble_host.Build.Load.{
  not_a_file, failed_to_read, not_absolute, assert, Builder, Panic, bundled_path, read_config_table,
  non_empty, overlaid, load_config,
}

module _ (B : Builder) (cargo_manifest_dir : String) where
  open B use {Leaf, as_bool, as_u16, from_str, nimble_config_dir, is_absolute, is_file, join}

  abbrev bundled : String
  bundled = bundled_path B cargo_manifest_dir

  -- The number of connections of a configuration that is accepted is one that the controller takes.
  pub load_config-max_connections :
      (c : NimbleConfig)
      → load_config B cargo_manifest_dir ≡ ok c
      → (1 ≤ c.connections.max_connections) × (c.connections.max_connections ≤ 70)
  unfolding load_config
  load_config-max_connections c h = ground arith

  -- What `load_config` read and checked when it returned `c`.
  pub record Loaded (c : NimbleConfig) : Type 0 where
    pub base : Table Leaf
    pub merged : Table Leaf
    pub path : Option String
    pub defaults : NimbleConfig
    pub base_read : read_config_table B cargo_manifest_dir bundled ≡ ok base
    pub base_valid : try_into as_bool as_u16 base ≡ ok defaults
    pub merged_read :
        overlaid B cargo_manifest_dir base (non_empty B cargo_manifest_dir nimble_config_dir)
        ≡ ok (merged, path)
    pub merged_valid : try_into as_bool as_u16 merged ≡ ok c

  load_config-Loaded : (c : NimbleConfig) → load_config B cargo_manifest_dir ≡ ok c → Loaded c
  unfolding load_config
  load_config-Loaded c h =
      let (b, read, h1) = >>=-ok (read_config_table B cargo_manifest_dir bundled) _ h in
      let (d, valid, h2) =
        >>=-ok (map_err (λ e. Panic.invalid_bundled bundled) (try_into as_bool as_u16 b)) _ h1 in
      let (m, over, h3) =
        >>=-ok (overlaid B cargo_manifest_dir b (non_empty B cargo_manifest_dir nimble_config_dir))
          _ h2 in
      let (c', valid', h4) = >>=-ok (map_err _ (try_into as_bool as_u16 m.0)) _ h3 in
      let same : c' ≡ c = ground arith in
      record {
        base = b;
        merged = m.0;
        path = m.1;
        defaults = d;
        base_read = read;
        base_valid = map_err-eq-ok _ _ _ valid;
        merged_read = over;
        merged_valid = map_err-eq-ok _ _ _ valid' ∙ ap ok same;
      }

  abbrev Present : Table Leaf → (List String × Setting) → Type 0
  Present t e = (l : Leaf) × (setting e.0 (some (table t)) ≡ some l)

  Reads-some :
      (v : Setting) (o : Option Leaf) → Reads as_bool as_u16 v o → (l : Leaf) × (o ≡ some l)
  unfolding bind
  Reads-some v (some l) h = (l, refl)
  Reads-some (flag b) none h = cc
  Reads-some (number n) none h = cc

  -- What the project file sets, and otherwise what the bundled file sets.
  abbrev pub Layered : Table Leaf → Table Leaf → (List String × Setting) → Type 0
  Layered base overlay e =
      Reads as_bool as_u16 e.1
        (or_else (setting e.0 (some (table overlay))) (setting e.0 (some (table base))))

  All-Layered :
      (base overlay : Table Leaf)
      → IsMap overlay
      → (es : List (List String × Setting)) → All (λ e. Present base e) es
      → All (Holds as_bool as_u16 (merge_tables base overlay)) es
      → All (Layered base overlay) es
  All-Layered base overlay m [] ps hs = tt
  All-Layered base overlay m (e ∷ es) ((l, p), ps) (h, hs) =
      let (l', p') = Reads-some e.1 _ h in
      (
        subst (Reads as_bool as_u16 e.1) (setting-merge_tables e.0 base overlay l l' m p p') h,
        All-Layered base overlay m es ps hs,
      )

  All-Present :
      (t : Table Leaf) (es : List (List String × Setting))
      → All (Holds as_bool as_u16 t) es
      → All (λ e. Present t e) es
  All-Present t [] h = tt
  All-Present t (e ∷ es) (h, hs) = (Reads-some e.1 _ h, All-Present t es hs)

  -- The tables that the toml crate parses have no key twice.
  pub record BuilderLaws : Type 0 where
    pub parsed-IsMap : (s : String) (t : Table Leaf) → from_str s ≡ some t → IsMap t

  read_config_table-IsMap :
      (laws : BuilderLaws) (path : String) (t : Table Leaf)
      → read_config_table B cargo_manifest_dir path ≡ ok t
      → IsMap t
  unfolding read_config_table
  read_config_table-IsMap laws path t h =
      let (content, read, h1) = >>=-ok (ok_or (failed_to_read path) (B.read_to_string path)) _ h in
      laws.parsed-IsMap content t (ground arith)

  -- The settings of a configuration that is accepted.
  abbrev pub Accepted : NimbleConfig → Option String → Type 0
  Accepted c none =
      (base : Table Leaf) × (read_config_table B cargo_manifest_dir bundled ≡ ok base)
      × All (Holds as_bool as_u16 base) (entries c)
  Accepted c (some dir) =
      (base : Table Leaf) × (overlay : Table Leaf) × (read_config_table B cargo_manifest_dir bundled
        ≡ ok base)
      × (read_config_table B cargo_manifest_dir (join dir "nimble-config.toml") ≡ ok overlay)
      × (is_absolute dir ≡ true)
      × All (Layered base overlay) (entries c)

  overlaid-Accepted :
      (laws : BuilderLaws) (base merged : Table Leaf) (path : Option String) (c d : NimbleConfig)
      (o : Option String)
      → read_config_table B cargo_manifest_dir bundled ≡ ok base
      → try_into as_bool as_u16 base ≡ ok d
      → overlaid B cargo_manifest_dir base o ≡ ok (merged, path)
      → try_into as_bool as_u16 merged ≡ ok c
      → Accepted c o
  unfolding overlaid
  overlaid-Accepted laws base merged path c d none r v h v' =
      let e : base ≡ merged = ground arith in
      (
        base,
        r,
        subst (λ t. All (Holds as_bool as_u16 t) (entries c)) (sym e)
            (try_into-Holds as_bool as_u16 merged c v'),
      )
  overlaid-Accepted laws base merged path c d (some dir) r v h v' =
      let p = join dir "nimble-config.toml" in
      let (a, absolute, h1) =
        >>=-ok (assert B cargo_manifest_dir (is_absolute dir) (not_absolute dir)) _ h in
      let (f, file, h2) = >>=-ok (assert B cargo_manifest_dir (is_file p) (not_a_file p)) _ h1 in
      let (overlay, read, h3) = >>=-ok (read_config_table B cargo_manifest_dir p) _ h2 in
      let e : merge_tables base overlay ≡ merged = ground arith in
      (
        base,
        overlay,
        r,
        read,
        ground arith,
        All-Layered base overlay (read_config_table-IsMap laws p overlay read) (entries c)
            (All-Present base (entries d) (try_into-Holds as_bool as_u16 base d v))
            (subst (λ t. All (Holds as_bool as_u16 t) (entries c)) (sym e)
              (try_into-Holds as_bool as_u16 merged c v')),
      )

  -- A configuration that is accepted has, for every key of the schema, the value that the project
  -- file sets, and otherwise the value that the bundled file sets; the directory of the project file
  -- is then absolute. Without a project directory every value is that of the bundled file. No table
  -- that is parsed has a key twice.
  pub load_config-Accepted :
      (laws : BuilderLaws) (c : NimbleConfig)
      → load_config B cargo_manifest_dir ≡ ok c
      → Accepted c (non_empty B cargo_manifest_dir nimble_config_dir)
  load_config-Accepted laws c h =
      let l = load_config-Loaded c h in
      overlaid-Accepted laws l.base l.merged l.path c l.defaults _ l.base_read l.base_valid
        l.merged_read l.merged_valid
