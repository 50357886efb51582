-- ===== src/TempTables/Visible.antt =====
-- Which tables of src/query/core/temp_tables.rs a statement sees after each operation.
use open_sdbl.Prelude.{
  ℕ, ◌+◌, ◌≡◌, refl, sym, ap, subst, ◌∙◌, Bool, true, false, List, [], ◌∷◌, ◌++◌, Option, none,
  some, ◌==◌, if◌then◌else◌, if_elim, Bool-cases, inl, inr, length, arith,
}
use open_sdbl.Prelude.Result.{Result, ok, err}
use open_sdbl.Names.{CaseTable, names_equal}
use open_sdbl.Names.Key.{names_equal-folded_name}
use open_sdbl.TempTables.{
  TempTableError, already_exists, Definition, max_definitions, Manager, Entry, answers, later_or,
  last_visible, visible_entry, is_some, contains, hide_entries, new_entry, push, define, drop_found,
  drop_table,
}

module _ (Column Binding : Type 0) (table : CaseTable) where
  names_equal_self : (a : List ℕ) → names_equal table a a ≡ true
  names_equal_self a = (names_equal-folded_name table a a).1 refl

  names_equal-meet :
      (a b c : List ℕ)
      → names_equal table a c ≡ true
      → names_equal table b c ≡ true
      → names_equal table a b ≡ true
  names_equal-meet a b c h k =
      (names_equal-folded_name table a b).1
        ((names_equal-folded_name table a c).0 h ∙ sym ((names_equal-folded_name table b c).0 k))

  later_or-answers :
      (name : List ℕ) (later : Option (Entry Column Binding table))
      (x e : Entry Column Binding table)
      → ((l : Entry Column Binding table)
          → later ≡ some l
          → answers Column Binding table name l ≡ true)
      → later_or Column Binding table later (answers Column Binding table name x) x ≡ some e
      → answers Column Binding table name e ≡ true
  later_or-answers name (some l) x e ih h = ih e h
  later_or-answers name none x e ih h =
      if_elim (λ o. o ≡ some e → answers Column Binding table name e ≡ true)
        (answers Column Binding table name x) (some x) none
        (λ here same.
          let is : x ≡ e = cc in subst (λ y. answers Column Binding table name y ≡ true) is here)
        (λ _ same. cc) h

  pub last_visible-answers :
      (name : List ℕ) (es : List (Entry Column Binding table)) (e : Entry Column Binding table)
      → last_visible Column Binding table name es ≡ some e
      → answers Column Binding table name e ≡ true
  unfolding last_visible
  last_visible-answers name [] e h = cc
  last_visible-answers name (x ∷ xs) e h =
      later_or-answers name (last_visible Column Binding table name xs) x e
        (last_visible-answers name xs) h

  answers-hidden :
      (name hidden : List ℕ) (e : Entry Column Binding table)
      → names_equal table hidden name ≡ true
      → answers Column Binding table name
          (if names_equal table e.name hidden then record e { visible = false } else e)
        ≡ false
  answers-hidden name hidden e h =
      if_elim (λ x. answers Column Binding table name x ≡ false) (names_equal table e.name hidden)
        (record e { visible = false }) e (λ _. refl)
        (λ other. elim (Bool-cases (names_equal table e.name name)) [
          | inl equal ↦
              let same = names_equal-meet e.name hidden name equal h in absurd (ground arith)
          | inr apart ↦ ground arith
        ])

  last_visible-hide_entries :
      (name hidden : List ℕ) (es : List (Entry Column Binding table))
      → names_equal table hidden name ≡ true
      → last_visible Column Binding table name (hide_entries Column Binding table hidden es) ≡ none
  unfolding last_visible
  last_visible-hide_entries name hidden [] h = refl
  last_visible-hide_entries name hidden (e ∷ es) h =
      rw (last_visible-hide_entries name hidden es h, answers-hidden name hidden e h) refl

  drop_found-hides :
      (name dropped : List ℕ) (m : Manager Column Binding table)
      (found : Option (Entry Column Binding table))
      → visible_entry Column Binding table m name ≡ found
      → (drop_found Column Binding table name m found).0 ≡ ok dropped
      → contains Column Binding table (drop_found Column Binding table name m found).1 name ≡ false
  unfolding contains
  drop_found-hides name dropped m none e h = cc
  drop_found-hides name dropped m (some x) e h =
      let answering = last_visible-answers name m.entries x e in
      ap (is_some Column Binding table)
        (last_visible-hide_entries name x.name m.entries (ground arith))

  -- After a table was dropped, no statement sees a table of its name.
  pub drop_table-contains :
      (name dropped : List ℕ) (m : Manager Column Binding table)
      → (drop_table Column Binding table name m).0 ≡ ok dropped
      → contains Column Binding table (drop_table Column Binding table name m).1 name ≡ false
  unfolding drop_table
  drop_table-contains name dropped m h =
      drop_found-hides name dropped m (visible_entry Column Binding table m name) refl h

  later_or_if :
      (b here : Bool) (later : Option (Entry Column Binding table))
      (e x : Entry Column Binding table)
      → later_or Column Binding table (if b then some e else later) here x
        ≡ (if b then some e else later_or Column Binding table later here x)
  later_or_if true here later e x = refl
  later_or_if false here later e x = refl

  last_visible_snoc :
      (name : List ℕ) (es : List (Entry Column Binding table)) (e : Entry Column Binding table)
      → last_visible Column Binding table name (es ++ (e ∷ [])) ≡ (
          if answers Column Binding table name e
          then some e
          else last_visible Column Binding table name es)
  unfolding last_visible
  last_visible_snoc name [] e = refl
  last_visible_snoc name (x ∷ xs) e =
      ap (λ o. later_or Column Binding table o (answers Column Binding table name x) x)
        (last_visible_snoc name xs e)
      ∙ later_or_if (answers Column Binding table name e) (answers Column Binding table name x)
          (last_visible Column Binding table name xs) e x

  -- What a definition that succeeded leaves for its own name and for the others.
  Defined :
      List ℕ
      → ℕ
      → Manager Column Binding table
      → Result TempTableError ℕ × Manager Column Binding table
      → Type 0
  Defined name id m (r, m') =
      r ≡ ok id
      → ((e : Entry Column Binding table) × (visible_entry Column Binding table m' name ≡ some e)
          × (e.id ≡ id))
        × ((other : List ℕ)
            → names_equal table name other ≡ false
            → visible_entry Column Binding table m' other
              ≡ visible_entry Column Binding table m other)

  push-Defined :
      (quote : List ℕ → List ℕ) (binding : Binding) (token name : List ℕ) (d : Definition Column)
      (id : ℕ) (m : Manager Column Binding table)
      → Defined name id m (push Column Binding table quote binding token name d m)
  unfolding push Defined
  push-Defined quote binding token name d id m =
      let e = new_entry Column Binding table quote name (m.next_id + 1) d in
      let self = names_equal_self name in
      let m' : Manager Column Binding table =
        (push Column Binding table quote binding token name d m).1 in
      elim (Bool-cases (length m.entries == max_definitions)) [
        | inl full ↦ rw full (λ h. cc)
        | inr room ↦ rw room (λ h. (
          (
            e,
            last_visible_snoc name m.entries e
                ∙ ap (λ b. if b then some e else last_visible Column Binding table name m.entries)
                    self,
            cc,
          ),
          λ other apart.
              last_visible_snoc other m.entries e
              ∙ ap (λ b. if b then some e else last_visible Column Binding table other m.entries)
                  apart,
        ))
      ]

  -- After a definition, a statement sees the new table under its name, and under every name that
  -- differs from it up to case what it saw before.
  pub define-visible_entry :
      (quote : List ℕ → List ℕ) (binding : Binding) (name : List ℕ) (d : Definition Column) (id : ℕ)
      (m : Manager Column Binding table)
      → (define Column Binding table quote binding name d m).0 ≡ ok id
      → ((e : Entry Column Binding table) × (visible_entry Column Binding table
              (define Column Binding table quote binding name d m).1
              name
            ≡ some e)
          × (e.id ≡ id))
        × ((other : List ℕ)
            → names_equal table name other ≡ false
            → visible_entry Column Binding table
                (define Column Binding table quote binding name d m).1
                other
              ≡ visible_entry Column Binding table m other)
  unfolding define Defined
  define-visible_entry quote binding name d id m =
      if_elim (Defined name id m) (contains Column Binding table m name)
        (err (already_exists name), m) (push Column Binding table quote binding name name d m)
        (λ _ h. cc) (λ _. push-Defined quote binding name name d id m)
