-- ===== src/TempTables/Refines.antt =====
-- The operations of src/query/core/temp_tables.rs against their contract.
use mathlib.Core.Path.{fun_ext}
use open_sdbl.Prelude.{
  ℕ, ◌+◌, ◌≡◌, refl, sym, ap, subst, ◌∙◌, List, [], ◌∷◌, Option, none, some, ◌==◌, if◌then◌else◌,
  Bool-cases, inl, inr, length, length-append, arith,
}
use open_sdbl.Prelude.Result.{Result, ok, err, stuck}
use open_sdbl.Names.{CaseTable, folded_name}
use open_sdbl.Names.Key.{names_equal-folded_name}
use open_sdbl.TempTables.{
  TempTableError, already_exists, Definition, max_definitions, Manager, Entry, is_some, contains,
  visible_entry, hide, new_entry, push, define, append_over, append, drop_found, drop_table,
}
use open_sdbl.TempTables.Visible.{last_visible-answers}
use open_sdbl.TempTables.Spec.{
  Table, put, remove, place, define_at, append_at, drop_at, spec_define, spec_append, spec_drop,
  id_of, view, entry_id, last_visible-id_of, id_of_snoc, id_of-hide_entries, length-hide_entries,
}

pub table_path :
    {f g : List ℕ → Option ℕ} {n k : ℕ}
    → ((key : List ℕ) → f key ≡ g key)
    → n ≡ k
    → ◌≡◌ {A = Table} (record { ids = f; count = n }) (record { ids = g; count = k })
table_path {f} {g} {n} {k} h e =
    let whole : f ≡ g = fun_ext h in
    let first : ◌≡◌ {A = Table} (record { ids = f; count = n }) (record { ids = g; count = n }) =
      ap (λ x. record { ids = x; count = n }) whole in
    let second : ◌≡◌ {A = Table} (record { ids = g; count = n }) (record { ids = g; count = k }) =
      ap (λ x. record { ids = g; count = x }) e in
    first ∙ second

module _ (Column Binding : Type 0) (table : CaseTable) where
  -- An operation gives the result of the contract and leaves a manager that shows its table.
  abbrev pub Refines :
      Result TempTableError ℕ × Manager Column Binding table
      → Result TempTableError ℕ × Table
      → Type 0
  Refines (r, m) (s, t) = (r ≡ s) × (view Column Binding table m ≡ t)

  view-hide :
      (name : List ℕ) (m : Manager Column Binding table)
      → view Column Binding table (hide Column Binding table name m)
        ≡ record (view Column Binding table m) {
          ids = remove (folded_name table name) (view Column Binding table m).ids;
        }
  view-hide name m =
      table_path (λ key. id_of-hide_entries Column Binding table name key m.entries)
        (length-hide_entries Column Binding table name m.entries)

  push-Refines :
      (quote : List ℕ → List ℕ) (binding : Binding) (token name : List ℕ) (d : Definition Column)
      (m : Manager Column Binding table)
      → m.next_id ≡ length m.entries
      → Refines
          (push Column Binding table quote binding token name d m)
          (place token (folded_name table name) (view Column Binding table m))
  unfolding push
  push-Refines quote binding token name d m counted =
      let e = new_entry Column Binding table quote name (m.next_id + 1) d in
      let key = folded_name table name in
      elim (Bool-cases (length m.entries == max_definitions)) [
        | inl full ↦ rw full (refl, refl)
        | inr room ↦ rw room (
          ap (λ n. ok (n + 1)) counted,
          table_path
              (λ k.
                id_of_snoc Column Binding table k m.entries e
                ∙ ap (λ n. put key (n + 1) (λ x. id_of Column Binding table x m.entries) k) counted)
              (omega (arith, length-append m.entries (e ∷ []))),
        )
      ]

  pub ids-visible_entry :
      (name : List ℕ) (m : Manager Column Binding table)
      (found : Option (Entry Column Binding table))
      → visible_entry Column Binding table m name ≡ found
      → (view Column Binding table m).ids (folded_name table name)
        ≡ entry_id Column Binding table found
  ids-visible_entry name m found e =
      sym (last_visible-id_of Column Binding table name m.entries)
      ∙ ap (entry_id Column Binding table) e

  pub found_key :
      (name : List ℕ) (m : Manager Column Binding table) (e : Entry Column Binding table)
      → visible_entry Column Binding table m name ≡ some e
      → folded_name table e.name ≡ folded_name table name
  found_key name m e h =
      let answering = last_visible-answers Column Binding table name m.entries e h in
      (names_equal-folded_name table e.name name).0 (ground arith)

  define_from-Refines :
      (quote : List ℕ → List ℕ) (binding : Binding) (name : List ℕ) (d : Definition Column)
      (m : Manager Column Binding table) (found : Option (Entry Column Binding table))
      → m.next_id ≡ length m.entries
      → Refines
          (if is_some Column Binding table found
            then (err (already_exists name), m)
            else push Column Binding table quote binding name name d m)
          (define_at name
            (folded_name table name)
            (view Column Binding table m)
            (entry_id Column Binding table found))
  define_from-Refines quote binding name d m none counted =
      push-Refines quote binding name name d m counted
  define_from-Refines quote binding name d m (some e) counted = (refl, refl)

  pub define-Refines :
      (quote : List ℕ → List ℕ) (binding : Binding) (name : List ℕ) (d : Definition Column)
      (m : Manager Column Binding table)
      → m.next_id ≡ length m.entries
      → Refines
          (define Column Binding table quote binding name d m)
          (spec_define table name (view Column Binding table m))
  unfolding define contains
  define-Refines quote binding name d m counted =
      let found = visible_entry Column Binding table m name in
      subst
        (λ o.
          Refines
            (if is_some Column Binding table found
              then (err (already_exists name), m)
              else push Column Binding table quote binding name name d m)
            (define_at name (folded_name table name) (view Column Binding table m) o))
        (sym (ids-visible_entry name m found refl))
        (define_from-Refines quote binding name d m found counted)

  append_over-Refines :
      (quote : List ℕ → List ℕ) (binding : Binding) (name : List ℕ) (d : Definition Column)
      (m : Manager Column Binding table) (found : Option (Entry Column Binding table))
      → m.next_id ≡ length m.entries
      → visible_entry Column Binding table m name ≡ found
      → Refines (append_over Column Binding table quote binding name d m found) (
          append_at name
            (folded_name table name)
            (view Column Binding table m)
            (entry_id Column Binding table found))
  append_over-Refines quote binding name d m none counted e = (refl, refl)
  append_over-Refines quote binding name d m (some x) counted e =
      let key = found_key name m x e in
      let hidden = hide Column Binding table x.name m in
      let shown : view Column Binding table hidden ≡ record (view Column Binding table m) {
        ids = remove (folded_name table name) (view Column Binding table m).ids;
      } =
        view-hide x.name m
        ∙ ap
            (λ k. record (view Column Binding table m) {
              ids = remove k (view Column Binding table m).ids;
            })
            key in
      let counted' : hidden.next_id ≡ length hidden.entries =
        counted ∙ sym (length-hide_entries Column Binding table x.name m.entries) in
      subst
        (λ t.
          Refines (push Column Binding table quote binding name x.name d hidden)
            (place name (folded_name table name) t))
        shown
        (subst
          (λ k.
            Refines (push Column Binding table quote binding name x.name d hidden)
              (place name k (view Column Binding table hidden)))
          key (push-Refines quote binding name x.name d hidden counted'))

  pub append-Refines :
      (quote : List ℕ → List ℕ) (binding : Binding) (name : List ℕ) (d : Definition Column)
      (m : Manager Column Binding table)
      → m.next_id ≡ length m.entries
      → Refines
          (append Column Binding table quote binding name d m)
          (spec_append table name (view Column Binding table m))
  unfolding append
  append-Refines quote binding name d m counted =
      let found = visible_entry Column Binding table m name in
      subst
        (λ o.
          Refines (append_over Column Binding table quote binding name d m found)
            (append_at name (folded_name table name) (view Column Binding table m) o))
        (sym (ids-visible_entry name m found refl))
        (append_over-Refines quote binding name d m found counted refl)

  abbrev pub dropped : Result TempTableError (List ℕ) → Result TempTableError (Unit {0})
  dropped (ok name) = ok tt
  dropped (err e) = err e
  dropped stuck = stuck

  abbrev pub DropRefines :
      Result TempTableError (List ℕ) × Manager Column Binding table
      → Result TempTableError (Unit {0}) × Table
      → Type 0
  DropRefines (r, m) (s, t) = (dropped r ≡ s) × (view Column Binding table m ≡ t)

  drop_found-DropRefines :
      (name : List ℕ) (m : Manager Column Binding table)
      (found : Option (Entry Column Binding table))
      → visible_entry Column Binding table m name ≡ found
      → DropRefines (drop_found Column Binding table name m found) (
          drop_at name
            (folded_name table name)
            (view Column Binding table m)
            (entry_id Column Binding table found))
  drop_found-DropRefines name m none e = (refl, refl)
  drop_found-DropRefines name m (some x) e = (
    refl,
    view-hide x.name m
        ∙ ap
            (λ k. record (view Column Binding table m) {
              ids = remove k (view Column Binding table m).ids;
            })
            (found_key name m x e),
  )

  pub drop_table-DropRefines :
      (name : List ℕ) (m : Manager Column Binding table)
      → DropRefines
          (drop_table Column Binding table name m)
          (spec_drop table name (view Column Binding table m))
  unfolding drop_table
  drop_table-DropRefines name m =
      let found = visible_entry Column Binding table m name in
      subst
        (λ o.
          DropRefines (drop_found Column Binding table name m found)
            (drop_at name (folded_name table name) (view Column Binding table m) o))
        (sym (ids-visible_entry name m found refl)) (drop_found-DropRefines name m found refl)
