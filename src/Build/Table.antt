-- ===== src/Build/Table.antt =====
-- build.rs: the untyped tables that the two configuration files are parsed into, and their merge.
pub mod Laws
use esp_nimble_host.Prelude.{Option, none, some, if◌then◌else◌}
use Prim.Native.String.{String}
use text.Mathlib.Text.{◌==◌}

-- `toml::Value` and `toml::Table`. `Leaf` is a value that is no table: the code does not look at it
-- before it is deserialized.
mutual
  pub data Value (Leaf : Type 0) : Type 0 where
    leaf : Leaf → Value Leaf
    table : Table Leaf → Value Leaf

  pub data Table (Leaf : Type 0) : Type 0 where
    empty : Table Leaf
    entry : String → Value Leaf → Table Leaf → Table Leaf

module _ {Leaf : Type 0} where
  -- `get_mut`, what it gives to read.
  unfoldable pub get : String → Table Leaf → Option (Value Leaf)
  get key empty = none
  get key (entry k value rest) = if k == key then some value else get key rest

  -- `insert`
  unfoldable pub insert : String → Value Leaf → Table Leaf → Table Leaf
  insert key value empty = entry key value empty
  insert key value (entry k old rest) =
      if k == key then entry k value rest else entry k old (insert key value rest)

  unfoldable mutual
    pub merge_tables : Table Leaf → Table Leaf → Table Leaf
    merge_tables base empty = base
    merge_tables base (entry key value overlay) =
        merge_tables (insert key (merge_value (get key base) value) base) overlay

    -- One turn of its loop: what stands at a key afterwards.
    pub merge_value : Option (Value Leaf) → Value Leaf → Value Leaf
    merge_value none value = value
    merge_value (some (leaf old)) value = value
    merge_value (some (table base)) (leaf value) = leaf value
    merge_value (some (table base)) (table overlay) = table (merge_tables base overlay)
