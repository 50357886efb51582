-- ===== src/TempTables/Checks.antt =====
-- What src/query/core/temp_tables.rs asks of the manager before and after a statement.
use open_sdbl.Prelude.{
  ℕ, ◌+◌, ◌*◌, ◌^◌, Bool, true, false, not, List, [], ◌∷◌, Option, none, some, ltb, ◌==◌,
  if◌then◌else◌,
}
use open_sdbl.Prelude.Result.{Result, ok, err}
use open_sdbl.Lexer.Chars.{byte_length}
use open_sdbl.Names.{CaseTable}
use open_sdbl.TempTables.{
  TempTableError, does_not_exist, sql_budget, snapshot_mismatch, other_dialect, Manager, Entry,
  visible_entry,
}

-- `TempTable`, and what a resolved source contributes
pub record TempTable (Column : Type 0) : Type 0 where
  pub name : List ℕ
  pub columns : List Column

pub record TempTableSource (Column : Type 0) : Type 0 where
  pub id : ℕ
  pub name : List ℕ
  pub columns : List Column
  pub dependencies : List ℕ
  pub restricted : Bool

-- 8 MiB
abbrev pub max_sql_bytes : ℕ
max_sql_bytes = 8 * 1024 * 1024

module _ (Column Binding : Type 0) (table : CaseTable) where
  abbrev visible_tables : List (Entry Column Binding table) → List (TempTable Column)
  visible_tables [] = []
  visible_tables (e ∷ es) =
      let rest = visible_tables es in
      if e.visible then record { name = e.name; columns = e.columns } ∷ rest else rest

  -- `tables`
  abbrev pub tables : Manager Column Binding table → List (TempTable Column)
  tables m = visible_tables m.entries

  abbrev pub no_tables : List (TempTable Column) → Bool
  no_tables [] = true
  no_tables (t ∷ ts) = false

  unfoldable pub is_empty : Manager Column Binding table → Bool
  is_empty m = no_tables (tables m)

  abbrev pub entry_of : ℕ → List (Entry Column Binding table) → Option (Entry Column Binding table)
  entry_of id [] = none
  entry_of id (e ∷ es) = if e.id == id then some e else entry_of id es

  -- `entry`
  unfoldable pub entry : Manager Column Binding table → ℕ → Option (Entry Column Binding table)
  entry m id = entry_of id m.entries

  abbrev pub mark_materialized :
      ℕ → List (Entry Column Binding table) → List (Entry Column Binding table)
  mark_materialized id [] = []
  mark_materialized id (e ∷ es) =
      if e.id == id then record e { materialized = true } ∷ es else e ∷ mark_materialized id es

  -- `entry_mut(id).expect(..).materialized = true` of `compile_materialized_batch`
  unfoldable pub materialize : ℕ → Manager Column Binding table → Manager Column Binding table
  materialize id m = record m { entries = mark_materialized id m.entries }

  -- `try_fold` with `checked_add` on 64-bit lengths: `none` is an overflow.
  abbrev pub materialized_bytes : ℕ → List (Entry Column Binding table) → Option ℕ
  materialized_bytes total [] = some total
  materialized_bytes total (e ∷ es) =
      let next = total + byte_length e.sql in
      let fits = materialized_bytes next es in
      let skips = materialized_bytes total es in
      if e.materialized then (if ltb next (2 ^ 64) then fits else none) else skips

  abbrev pub within_budget : Option ℕ → Bool
  within_budget none = false
  within_budget (some bytes) = not (ltb max_sql_bytes bytes)

  unfoldable pub check_materialized_size :
      List ℕ → Manager Column Binding table → Result TempTableError (Unit {0})
  check_materialized_size token m =
      if within_budget (materialized_bytes 0 m.entries) then ok tt else err (sql_budget token)

  abbrev pub source_of :
      List ℕ → Option (Entry Column Binding table) → Result TempTableError (TempTableSource Column)
  source_of token none = err (does_not_exist token)
  source_of token (some e) = ok (record {
    id = e.id;
    name = e.name;
    columns = e.columns;
    dependencies = e.dependencies;
    restricted = e.restricted;
  })

  unfoldable pub source :
      List ℕ → Manager Column Binding table → Result TempTableError (TempTableSource Column)
  source token m = source_of token (visible_entry Column Binding table m token)

  abbrev pub check_bound :
      (Binding → Binding → Bool)
      → (Binding → Binding → Bool)
      → Option Binding
      → Binding
      → Result TempTableError (Unit {0})
  check_bound same_snapshot same_dialect none b = ok tt
  check_bound same_snapshot same_dialect (some bound) b =
      if not (same_snapshot bound b)
      then err snapshot_mismatch
      else if not (same_dialect bound b)
      then err other_dialect
      else ok tt

  -- A binding is a dialect with a fingerprint; the arguments compare these parts.
  unfoldable pub check_binding :
      (Binding → Binding → Bool)
      → (Binding → Binding → Bool)
      → Binding
      → Manager Column Binding table
      → Result TempTableError (Unit {0})
  check_binding same_snapshot same_dialect b m = check_bound same_snapshot same_dialect m.binding b
