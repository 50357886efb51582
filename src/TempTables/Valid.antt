-- ===== src/TempTables/Valid.antt =====
-- The invariant of the manager of src/query/core/temp_tables.rs.
use open_sdbl.Prelude.{
  ℕ, suc, ◌+◌, ◌≤◌, ◌<◌, ◌≡◌, refl, sym, ap, ◌∙◌, true, false, List, [], ◌∷◌, ◌++◌, Option, none,
  some, ◌==◌, if◌then◌else◌, if_elim, Bool-cases, Option-cases, inl, inr, length, length-append,
  arith,
}
use open_sdbl.Lexer.Lookup.{chars_eq, chars_eq-true, chars_eq_refl}
use open_sdbl.Names.{CaseTable, names_equal, folded_name}
use open_sdbl.TempTables.{
  Definition, max_definitions, Manager, Entry, new_manager, clear, is_some, contains, visible_entry,
  hide, hide_entries, bind_first, new_entry, push, define, append_over, append, drop_found,
  drop_table,
}
use open_sdbl.TempTables.Spec.{
  key_visible, id_of, id_if-none, id_of_snoc, id_of-hide_entries, length-hide_entries,
}
use open_sdbl.TempTables.Refines.{ids-visible_entry}

module _ (Column Binding : Type 0) (table : CaseTable) where
  abbrev pub Entries : Type 0
  Entries = List (Entry Column Binding table)

  -- The identifiers count the definitions from 1.
  abbrev pub Numbered : ℕ → Entries → Type 0
  Numbered k [] = Unit
  Numbered k (e ∷ es) = (e.id ≡ suc k) × Numbered (suc k) es

  -- No later visible entry has the key of a visible one.
  abbrev pub Apart : Entries → Type 0
  Apart [] = Unit
  Apart (e ∷ es) =
      (e.visible ≡ true → id_of Column Binding table (folded_name table e.name) es ≡ none)
      × Apart es

  pub record Valid (m : Manager Column Binding table) : Type 0 where
    pub numbered : Numbered 0 m.entries
    pub counted : m.next_id ≡ length m.entries
    pub bounded : length m.entries ≤ max_definitions
    pub bound : m.binding ≡ none → m.entries ≡ []
    pub apart : Apart m.entries

  Numbered-snoc :
      (k : ℕ) (es : Entries) (e : Entry Column Binding table)
      → Numbered k es
      → e.id ≡ length es + k + 1
      → Numbered k (es ++ (e ∷ []))
  Numbered-snoc k [] e h is = (omega arith, tt)
  Numbered-snoc k (x ∷ xs) e (first, rest) is =
      (first, Numbered-snoc (suc k) xs e rest (omega arith))

  hide_entries-Numbered :
      (hidden : List ℕ) (k : ℕ) (es : Entries)
      → Numbered k es
      → Numbered k (hide_entries Column Binding table hidden es)
  hide_entries-Numbered hidden k [] h = tt
  hide_entries-Numbered hidden k (e ∷ es) (first, rest) = (
    if_elim (λ (x : Entry Column Binding table). x.id ≡ suc k) (names_equal table e.name hidden)
        (record e { visible = false }) e (λ _. first) (λ _. first),
    hide_entries-Numbered hidden (suc k) es rest,
  )

  Apart_snoc :
      (es : Entries) (e : Entry Column Binding table)
      → Apart es
      → id_of Column Binding table (folded_name table e.name) es ≡ none
      → Apart (es ++ (e ∷ []))
  Apart_snoc [] e h new = (λ _. refl, tt)
  Apart_snoc (x ∷ xs) e (first, rest) new =
      let f = folded_name table x.name in
      let g = folded_name table e.name in
      let seen_before =
        id_if-none Column Binding table (id_of Column Binding table g xs)
          (key_visible Column Binding table g x) x.id new in
      (
        λ seen.
            let other : chars_eq f g ≡ false = ground arith in
            id_of_snoc Column Binding table f xs e
            ∙ if_elim (λ o. o ≡ none) (key_visible Column Binding table f e) (some e.id)
                (id_of Column Binding table f xs)
                (λ clash.
                  let same : chars_eq g f ≡ true = ground arith in
                  let equal : chars_eq f g ≡ true =
                    ap (chars_eq f) (chars_eq-true g f same) ∙ chars_eq_refl f in
                  cc)
                (λ _. first seen),
        Apart_snoc xs e rest seen_before.0,
      )

  hide_entries-Apart :
      (hidden : List ℕ) (es : Entries)
      → Apart es
      → Apart (hide_entries Column Binding table hidden es)
  hide_entries-Apart hidden [] h = tt
  hide_entries-Apart hidden (e ∷ es) (first, rest) = (
    if_elim
        (λ (x : Entry Column Binding table).
          x.visible ≡ true
          → id_of Column Binding table (folded_name table x.name)
              (hide_entries Column Binding table hidden es)
            ≡ none)
        (names_equal table e.name hidden) (record e { visible = false }) e (λ _ seen. cc)
        (λ _ seen.
          id_of-hide_entries Column Binding table hidden (folded_name table e.name) es
          ∙ if_elim (λ o. o ≡ none) (chars_eq (folded_name table hidden) (folded_name table e.name))
              none (id_of Column Binding table (folded_name table e.name) es) (λ _. refl)
              (λ _. first seen)),
    hide_entries-Apart hidden es rest,
  )

  hide-Valid :
      (hidden : List ℕ) (m : Manager Column Binding table)
      → Valid m
      → Valid (hide Column Binding table hidden m)
  hide-Valid hidden m v = record {
    numbered = hide_entries-Numbered hidden 0 m.entries v.numbered;
    counted = v.counted ∙ sym (length-hide_entries Column Binding table hidden m.entries);
    bounded = omega (arith, v.bounded, length-hide_entries Column Binding table hidden m.entries);
    bound = λ none_bound. ap (hide_entries Column Binding table hidden) (v.bound none_bound);
    apart = hide_entries-Apart hidden m.entries v.apart;
  }

  bind_first-some :
      (o : Option Binding) (b : Binding) → bind_first Column Binding table o b ≡ none → ⊥
  bind_first-some none b h = cc
  bind_first-some (some x) b h = cc

  push-Valid :
      (quote : List ℕ → List ℕ) (binding : Binding) (token name : List ℕ) (d : Definition Column)
      (m : Manager Column Binding table)
      → Valid m
      → id_of Column Binding table (folded_name table name) m.entries ≡ none
      → Valid (push Column Binding table quote binding token name d m).1
  unfolding push
  push-Valid quote binding token name d m v new =
      let e = new_entry Column Binding table quote name (m.next_id + 1) d in
      elim (Bool-cases (length m.entries == max_definitions)) [
        | inl full ↦ rw full v
        | inr room ↦ rw room record {
          numbered = Numbered-snoc 0 m.entries e v.numbered (omega (arith, v.counted));
          counted = omega (arith, v.counted, length-append m.entries (e ∷ []));
          bounded =
              let below : length m.entries < max_definitions = ground (arith, v.bounded) in
              omega (arith, length-append m.entries (e ∷ []));
          bound = λ h. absurd (bind_first-some m.binding binding h);
          apart = Apart_snoc m.entries e v.apart new;
        }
      ]

  pub define-Valid :
      (quote : List ℕ → List ℕ) (binding : Binding) (name : List ℕ) (d : Definition Column)
      (m : Manager Column Binding table)
      → Valid m
      → Valid (define Column Binding table quote binding name d m).1
  unfolding define contains
  define-Valid quote binding name d m v =
      elim (Option-cases (visible_entry Column Binding table m name)) [
        | inl new ↦ rw (ap (is_some Column Binding table) new) (
            push-Valid quote binding name name d m v
              (ids-visible_entry Column Binding table name m none new))
        | inr (x, old) ↦ rw (ap (is_some Column Binding table) old) v
      ]

  append_over-Valid :
      (quote : List ℕ → List ℕ) (binding : Binding) (name : List ℕ) (d : Definition Column)
      (m : Manager Column Binding table) (found : Option (Entry Column Binding table))
      → Valid m
      → Valid (append_over Column Binding table quote binding name d m found).1
  append_over-Valid quote binding name d m none v = v
  append_over-Valid quote binding name d m (some x) v =
      push-Valid quote binding name x.name d (hide Column Binding table x.name m)
        (hide-Valid x.name m v)
        (id_of-hide_entries Column Binding table x.name (folded_name table x.name) m.entries
          ∙ ap
              (λ b.
                if b then none else id_of Column Binding table (folded_name table x.name) m.entries)
              (chars_eq_refl (folded_name table x.name)))

  pub append-Valid :
      (quote : List ℕ → List ℕ) (binding : Binding) (name : List ℕ) (d : Definition Column)
      (m : Manager Column Binding table)
      → Valid m
      → Valid (append Column Binding table quote binding name d m).1
  unfolding append
  append-Valid quote binding name d m =
      append_over-Valid quote binding name d m (visible_entry Column Binding table m name)

  drop_found-Valid :
      (name : List ℕ) (m : Manager Column Binding table)
      (found : Option (Entry Column Binding table))
      → Valid m
      → Valid (drop_found Column Binding table name m found).1
  drop_found-Valid name m none v = v
  drop_found-Valid name m (some x) v = hide-Valid x.name m v

  pub drop_table-Valid :
      (name : List ℕ) (m : Manager Column Binding table)
      → Valid m
      → Valid (drop_table Column Binding table name m).1
  unfolding drop_table
  drop_table-Valid name m = drop_found-Valid name m (visible_entry Column Binding table m name)

  pub new_manager-Valid : Valid (new_manager Column Binding table)
  new_manager-Valid = record {
    numbered = tt;
    counted = refl;
    bounded = omega arith;
    bound = λ _. refl;
    apart = tt;
  }

  pub clear-Valid : (m : Manager Column Binding table) → Valid (clear Column Binding table m)
  clear-Valid m = new_manager-Valid
