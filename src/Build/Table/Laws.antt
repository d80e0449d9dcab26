-- ===== src/Build/Table/Laws.antt =====
-- What merge_tables of build.rs leaves at a path.
use esp_nimble_host.Prelude.{
  subst, inr, inl, Bool-cases, Option-cases, ◌≡◌, refl, sym, ap, ◌∙◌, Option, none, some, List, [],
  ◌∷◌, arith, if◌then◌else◌,
}
use mathlib.Core.Option.{some-injective}
use Prim.Native.String.{String}
use text.Mathlib.Text.{◌==◌}
use text.Mathlib.TextEquality.{eq_iff}
use esp_nimble_host.Build.Table.{
  Value, Table, leaf, table, empty, entry, get, insert, merge_tables, merge_value,
}

module _ {Leaf : Type 0} where
  get-insert :
      (j k : String) (v : Value Leaf) (t : Table Leaf)
      → get j (insert k v t) ≡ (if k == j then some v else get j t)
  unfolding get insert
  get-insert j k v empty = refl
  get-insert j k v (entry i w t) =
      ground (arith, eq_iff k j, eq_iff i k, eq_iff i j, get-insert j k v t)

  -- No key twice, in a table and in those inside it.
  abbrev mutual
    pub IsMap : Table Leaf → Type 0
    IsMap empty = Unit {0}
    IsMap (entry k v t) = (get k t ≡ none) × IsMapValue v × IsMap t

    pub IsMapValue : Value Leaf → Type 0
    IsMapValue (leaf l) = Unit {0}
    IsMapValue (table t) = IsMap t

  -- What is at a key of the merged table.
  abbrev merged : Option (Value Leaf) → Option (Value Leaf) → Option (Value Leaf)
  merged old none = old
  merged old (some v) = some (merge_value old v)

  get-merge_tables :
      (k : String) (b o : Table Leaf)
      → IsMap o
      → get k (merge_tables b o) ≡ merged (get k b) (get k o)
  unfolding get merge_tables
  get-merge_tables k b empty m = refl
  get-merge_tables k b (entry j v o) (fresh, _, m) = ground (
    arith,
    eq_iff j k,
    get-merge_tables k (insert j (merge_value (get j b) v) b) o m,
    get-insert k j (merge_value (get j b) v) b,
  )

  get-IsMap :
      (k : String) (t : Table Leaf) (v : Value Leaf) → IsMap t → get k t ≡ some v → IsMapValue v
  unfolding get
  get-IsMap k empty v m e = cc
  get-IsMap k (entry j w t) v (_, n, m) e = elim (Bool-cases (j == k)) [
    | inl same ↦ subst IsMapValue (some-injective _ _ (sym (rw same refl) ∙ e)) n
    | inr other ↦ get-IsMap k t v m (sym (rw other refl) ∙ e)
  ]

  abbrev IsMapOption : Option (Value Leaf) → Type 0
  IsMapOption none = Unit {0}
  IsMapOption (some v) = IsMapValue v

  get-IsMapOption : (k : String) (t : Table Leaf) → IsMap t → IsMapOption (get k t)
  get-IsMapOption k t m = elim (Option-cases (get k t)) [
    | inl e ↦ rw e tt
    | inr (v, e) ↦ rw e (get-IsMap k t v m e)
  ]

  -- The setting at a path of keys.
  unfoldable pub setting : List String → Option (Value Leaf) → Option Leaf
  setting p none = none
  setting [] (some (leaf l)) = some l
  setting [] (some (table t)) = none
  setting (k ∷ p) (some (leaf l)) = none
  setting (k ∷ p) (some (table t)) = setting p (get k t)

  abbrev pub or_else : Option Leaf → Option Leaf → Option Leaf
  or_else none o = o
  or_else (some l) o = some l

  setting-merged :
      (p : List String) (old new : Option (Value Leaf)) (l l' : Leaf)
      → IsMapOption new
      → setting p old ≡ some l
      → setting p (merged old new) ≡ some l'
      → setting p (merged old new) ≡ or_else (setting p new) (setting p old)
  unfolding setting merge_value
  setting-merged p old none l l' m e e' = refl
  setting-merged p none (some v) l l' m e e' = cc
  setting-merged [] (some (leaf a)) (some (leaf b)) l l' m e e' = refl
  setting-merged [] (some (leaf a)) (some (table t)) l l' m e e' = cc
  setting-merged [] (some (table s)) (some v) l l' m e e' = cc
  setting-merged (k ∷ p) (some (leaf a)) (some v) l l' m e e' = cc
  setting-merged (k ∷ p) (some (table s)) (some (leaf b)) l l' m e e' = cc
  setting-merged (k ∷ p) (some (table s)) (some (table t)) l l' m e e' =
      let g = get-merge_tables k s t m in
      ap (setting p) g
      ∙ setting-merged p (get k s) (get k t) l l' (get-IsMapOption k t m) e
          (sym (ap (setting p) g) ∙ e')

  -- At a path where the tables have a setting both before and after the merge, the setting is the
  -- one of the overlay if that has one there, and otherwise stays as it was. No table of the overlay
  -- has a key twice.
  pub setting-merge_tables :
      (p : List String) (base overlay : Table Leaf) (l l' : Leaf)
      → IsMap overlay
      → setting p (some (table base)) ≡ some l
      → setting p (some (table (merge_tables base overlay))) ≡ some l'
      → setting p (some (table (merge_tables base overlay)))
        ≡ or_else (setting p (some (table overlay))) (setting p (some (table base)))
  unfolding merge_value
  setting-merge_tables p base overlay l l' m e e' =
      setting-merged p (some (table base)) (some (table overlay)) l l' m e e'
