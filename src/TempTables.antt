-- ===== src/TempTables.antt =====
-- `TempTablesManager` of src/query/core/temp_tables.rs: the definitions of a batch and their
-- visibility. What a compiled column holds is the parameter Column, and the quoting of an identifier
-- by a dialect is an argument.
pub mod Checks
pub mod Visible
pub mod Valid
pub mod Refines
pub mod Run
pub mod Spec
mod Tests
use open_sdbl.Prelude.{
  ℕ, zero, suc, ◌+◌, ◌-◌, Bool, true, false, not, ◌&&◌, List, [], ◌∷◌, ◌++◌, Option, none, some,
  ◌==◌, leb, if◌then◌else◌, codes, decimal, length,
}
use open_sdbl.Prelude.Result.{Result, ok, err}
use open_sdbl.Names.{CaseTable, names_equal}

pub record TempTableEntry (Column : Type 0) : Type 0 where
  pub name : List ℕ
  pub id : ℕ
  pub sql : List ℕ
  pub columns : List Column
  pub dependencies : List ℕ
  pub ctes : List (List ℕ × List ℕ)
  pub visible : Bool
  pub materialized : Bool
  pub restricted : Bool

-- `binding` is the dialect and the snapshot of the first definition.
pub record TempTablesManager (Column Binding : Type 0) : Type 0 where
  pub entries : List (TempTableEntry Column)
  pub next_id : ℕ
  pub binding : Option Binding

-- The diagnostics, with the name that stands at their token
pub data TempTableError : Type 0 where
  already_exists does_not_exist too_many_definitions sql_budget : List ℕ → TempTableError
  snapshot_mismatch other_dialect : TempTableError

-- What a statement hands over with its definition
pub record Definition (Column : Type 0) : Type 0 where
  pub sql : List ℕ
  pub columns : List Column
  pub dependencies : List ℕ
  pub ctes : List (List ℕ × List ℕ)
  pub restricted : Bool

abbrev pub max_definitions : ℕ
max_definitions = 256

-- `str::replace` with a pattern that is not empty
abbrev starts_with : List ℕ → List ℕ → Bool
starts_with [] text = true
starts_with (p ∷ ps) [] = false
starts_with (p ∷ ps) (c ∷ cs) = p == c && starts_with ps cs

abbrev pub replace_from : ℕ → List ℕ → List ℕ → List ℕ → List ℕ
replace_from skip from to [] = []
replace_from (suc skip) from to (c ∷ cs) = replace_from skip from to cs
replace_from zero from to (c ∷ cs) =
    let behind = replace_from (length from - 1) from to cs in
    let on = replace_from zero from to cs in
    if starts_with from (c ∷ cs) then to ++ behind else c ∷ on

-- `format!("{cte}_t{id}")`
abbrev cte_in_table : ℕ → List ℕ → List ℕ
cte_in_table id cte = cte ++ (codes "_t" ++ decimal id)

-- The statement's own tables are renamed wherever its text quotes them.
abbrev pub rename_in : (List ℕ → List ℕ) → ℕ → List (List ℕ × List ℕ) → List ℕ → List ℕ
rename_in quote id [] text = text
rename_in quote id ((cte, body) ∷ ctes) text =
    rename_in quote id ctes (replace_from zero (quote cte) (quote (cte_in_table id cte)) text)

abbrev pub renamed_ctes :
    (List ℕ → List ℕ) → ℕ → List (List ℕ × List ℕ) → List (List ℕ × List ℕ) → List (List ℕ × List ℕ)
renamed_ctes quote id all [] = []
renamed_ctes quote id all ((cte, body) ∷ ctes) =
    (cte_in_table id cte, rename_in quote id all body) ∷ renamed_ctes quote id all ctes

module _ (Column Binding : Type 0) (table : CaseTable) where
  abbrev pub Manager : Type 0
  Manager = TempTablesManager Column Binding

  abbrev pub Entry : Type 0
  Entry = TempTableEntry Column

  abbrev pub new_manager : Manager
  new_manager = record { entries = []; next_id = 0; binding = none }

  -- `clear`
  abbrev pub clear : Manager → Manager
  clear m = record m { entries = []; next_id = 0; binding = none }

  abbrev pub answers : List ℕ → Entry → Bool
  answers name e = e.visible && names_equal table e.name name

  abbrev pub later_or : Option Entry → Bool → Entry → Option Entry
  later_or (some later) here e = some later
  later_or none here e = if here then some e else none

  -- The last visible entry of a name: `iter().rev().find(..)`
  unfoldable pub last_visible : List ℕ → List Entry → Option Entry
  last_visible name [] = none
  last_visible name (e ∷ es) = later_or (last_visible name es) (answers name e) e

  abbrev pub visible_entry : Manager → List ℕ → Option Entry
  visible_entry m name = last_visible name m.entries

  abbrev pub is_some : Option Entry → Bool
  is_some none = false
  is_some (some e) = true

  unfoldable pub contains : Manager → List ℕ → Bool
  contains m name = is_some (visible_entry m name)

  abbrev pub hide_entries : List ℕ → List Entry → List Entry
  hide_entries name [] = []
  hide_entries name (e ∷ es) =
      (if names_equal table e.name name then record e { visible = false } else e)
      ∷ hide_entries name es

  abbrev pub hide : List ℕ → Manager → Manager
  hide name m = record m { entries = hide_entries name m.entries }

  abbrev pub bind_first : Option Binding → Binding → Option Binding
  bind_first none b = some b
  bind_first (some bound) b = some bound

  abbrev pub new_entry : (List ℕ → List ℕ) → List ℕ → ℕ → Definition Column → Entry
  new_entry quote name id d = record {
    name = name;
    id = id;
    sql = rename_in quote id d.ctes d.sql;
    columns = d.columns;
    dependencies = d.dependencies;
    ctes = renamed_ctes quote id d.ctes d.ctes;
    visible = true;
    materialized = false;
    restricted = d.restricted;
  }

  -- The result, and the manager that the call leaves; the name as the token has it comes before the
  -- name of the entry.
  unfoldable pub push :
      (List ℕ → List ℕ)
      → Binding
      → List ℕ
      → List ℕ
      → Definition Column
      → Manager
      → Result TempTableError ℕ × Manager
  push quote binding token name d m =
      if length m.entries == max_definitions then (err (too_many_definitions token), m) else (
        ok (m.next_id + 1),
        record {
          entries = m.entries ++ (new_entry quote name (m.next_id + 1) d ∷ []);
          next_id = m.next_id + 1;
          binding = bind_first m.binding binding;
        },
      )

  unfoldable pub define :
      (List ℕ → List ℕ)
      → Binding
      → List ℕ
      → Definition Column
      → Manager
      → Result TempTableError ℕ × Manager
  define quote binding name d m =
      if contains m name then (err (already_exists name), m) else push quote binding name name d m

  abbrev pub append_over :
      (List ℕ → List ℕ)
      → Binding
      → List ℕ
      → Definition Column
      → Manager
      → Option Entry
      → Result TempTableError ℕ × Manager
  append_over quote binding name d m none = (err (does_not_exist name), m)
  append_over quote binding name d m (some previous) =
      push quote binding name previous.name d (hide previous.name m)

  unfoldable pub append :
      (List ℕ → List ℕ)
      → Binding
      → List ℕ
      → Definition Column
      → Manager
      → Result TempTableError ℕ × Manager
  append quote binding name d m = append_over quote binding name d m (visible_entry m name)

  abbrev pub drop_found : List ℕ → Manager → Option Entry → Result TempTableError (List ℕ) × Manager
  drop_found name m none = (err (does_not_exist name), m)
  drop_found name m (some dropped) = (ok dropped.name, hide dropped.name m)

  unfoldable pub drop_table : List ℕ → Manager → Result TempTableError (List ℕ) × Manager
  drop_table name m = drop_found name m (visible_entry m name)
