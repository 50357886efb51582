-- ===== src/TempTables/Tests.antt =====
-- Runs of the manager of src/query/core/temp_tables.rs, with columns and bindings as numbers.
use open_sdbl.Prelude.{ℕ, ◌≡◌, refl, true, false, List, [], ◌∷◌, ◌++◌, none, some, codes, decimal}
use open_sdbl.Prelude.Result.{ok, err}
use open_sdbl.Lexer.Lookup.{chars_eq}
use open_sdbl.Metadata.Guid.{lowercase_byte}
use open_sdbl.Names.{CaseTable, names_equal}
use open_sdbl.TempTables.{
  does_not_exist, Definition, Manager, Entry, new_manager, last_visible, visible_entry, contains,
  push, define, append, drop_table,
}
use open_sdbl.TempTables.Checks.{check_materialized_size, materialize}
use open_sdbl.TempTables.Valid.{Valid}
use open_sdbl.TempTables.Run.{
  Op, define_op, append_op, drop_op, materialize_op, run, spec_run, Shows, run-Valid, run-Shows,
}
use open_sdbl.TempTables.Visible.{drop_table-contains, define-visible_entry}

abbrev ascii_case : CaseTable
ascii_case = record { to_lowercase = λ c. lowercase_byte c ∷ []; to_lowercase_ascii = λ c h. refl }

abbrev quoted : List ℕ → List ℕ
quoted name = b'"' ∷ (name ++ (b'"' ∷ []))

abbrev plain : Definition ℕ
plain = record {
  sql = codes "select \"h\"";
  columns = 7 ∷ [];
  dependencies = [];
  ctes = (codes "h", codes "select 1") ∷ [];
  restricted = false;
}

abbrev one_table : Manager ℕ ℕ ascii_case
one_table = record {
  entries =
      record {
        name = codes "VT";
        id = 1;
        sql = codes "select \"h_t1\"";
        columns = 7 ∷ [];
        dependencies = [];
        ctes = (codes "h_t1", codes "select 1") ∷ [];
        visible = true;
        materialized = false;
        restricted = false;
      }
      ∷ [];
  next_id = 1;
  binding = some 3;
}

define_run :
    define ℕ ℕ ascii_case quoted 3 (codes "VT") plain (new_manager ℕ ℕ ascii_case)
    ≡ (ok 1, one_table)
unfolding define push contains last_visible names_equal chars_eq decimal
define_run = refl

append_run : (append ℕ ℕ ascii_case quoted 3 (codes "vt") plain one_table).0 ≡ ok 2
unfolding append push last_visible names_equal chars_eq
append_run = refl

drop_run : (drop_table ℕ ℕ ascii_case (codes "vt") one_table).0 ≡ ok (codes "VT")
unfolding drop_table last_visible names_equal chars_eq
drop_run = refl

drop_table-contains_example :
    contains ℕ ℕ ascii_case (drop_table ℕ ℕ ascii_case (codes "vt") one_table).1 (codes "vt")
    ≡ false
drop_table-contains_example =
    drop_table-contains ℕ ℕ ascii_case (codes "vt") (codes "VT") one_table drop_run

second_run : (define ℕ ℕ ascii_case quoted 3 (codes "other") plain one_table).0 ≡ ok 2
unfolding define push contains last_visible names_equal chars_eq
second_run = refl

define-visible_entry_example :
    ((e : Entry ℕ ℕ ascii_case) × (visible_entry ℕ ℕ ascii_case
          (define ℕ ℕ ascii_case quoted 3 (codes "other") plain one_table).1
          (codes "other")
        ≡ some e)
      × (e.id ≡ 2))
    × ((other : List ℕ)
        → names_equal ascii_case (codes "other") other ≡ false
        → visible_entry ℕ ℕ ascii_case
            (define ℕ ℕ ascii_case quoted 3 (codes "other") plain one_table).1
            other
          ≡ visible_entry ℕ ℕ ascii_case one_table other)
define-visible_entry_example =
    define-visible_entry ℕ ℕ ascii_case quoted 3 (codes "other") plain 2 one_table second_run

-- Two tables, one of them appended to and then dropped.
abbrev batch : List (Op ℕ ℕ)
batch =
    define_op quoted 3 (codes "VT") plain
    ∷ define_op quoted 3 (codes "other") plain
    ∷ append_op quoted 3 (codes "vt") plain
    ∷ materialize_op 3
    ∷ drop_op (codes "Vt")
    ∷ append_op quoted 3 (codes "VT") plain
    ∷ []

batch_run :
    (run ℕ ℕ ascii_case batch (new_manager ℕ ℕ ascii_case)).0
    ≡ ok (some 1)
      ∷ ok (some 2)
      ∷ ok (some 3)
      ∷ ok none
      ∷ ok none
      ∷ err (does_not_exist (codes "VT"))
      ∷ []
unfolding define append push drop_table materialize contains last_visible names_equal chars_eq
batch_run = refl

materialized_run :
    check_materialized_size ℕ ℕ ascii_case (codes "VT") (materialize ℕ ℕ ascii_case 1 one_table)
    ≡ ok tt
unfolding check_materialized_size materialize
materialized_run = refl

run-Valid_example : Valid ℕ ℕ ascii_case (run ℕ ℕ ascii_case batch (new_manager ℕ ℕ ascii_case)).1
run-Valid_example = run-Valid ℕ ℕ ascii_case batch

run-Shows_example :
    Shows ℕ ℕ ascii_case
      (run ℕ ℕ ascii_case batch (new_manager ℕ ℕ ascii_case))
      (spec_run ℕ ℕ ascii_case batch (record { ids = λ key. none; count = 0 }))
run-Shows_example = run-Shows ℕ ℕ ascii_case batch
