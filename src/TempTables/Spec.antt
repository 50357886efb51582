-- ===== src/TempTables/Spec.antt =====
-- The contract of the manager of src/query/core/temp_tables.rs: a map from the keys of names to
-- identifiers, and how many definitions were made.
use open_sdbl.Prelude.{
  ℕ, suc, ◌+◌, ◌≡◌, refl, sym, ap, ◌∙◌, Bool, true, false, ◌&&◌, List, [], ◌∷◌, ◌++◌, Option, none,
  some, ◌==◌, if◌then◌else◌, if_elim, Bool-cases, inl, inr, length, arith,
}
use open_sdbl.Prelude.Result.{Result, ok, err}
use open_sdbl.Lexer.Lookup.{chars_eq, chars_eq-true}
use open_sdbl.Names.{CaseTable, names_equal, folded_name}
use open_sdbl.Names.Key.{names_equal-key}
use open_sdbl.TempTables.{
  TempTableError, already_exists, does_not_exist, too_many_definitions, max_definitions, Manager,
  Entry, answers, later_or, last_visible, hide_entries,
}

pub record Table : Type 0 where
  pub ids : List ℕ → Option ℕ
  pub count : ℕ

abbrev pub put : List ℕ → ℕ → (List ℕ → Option ℕ) → List ℕ → Option ℕ
put key id ids k = if chars_eq key k then some id else ids k

abbrev pub remove : List ℕ → (List ℕ → Option ℕ) → List ℕ → Option ℕ
remove key ids k = if chars_eq key k then none else ids k

-- A table gets the next number, unless too many have been made.
abbrev pub place : List ℕ → List ℕ → Table → Result TempTableError ℕ × Table
place token key t =
    if t.count == max_definitions
    then (err (too_many_definitions token), t)
    else (ok (t.count + 1), record { ids = put key (t.count + 1) t.ids; count = t.count + 1 })

abbrev pub define_at : List ℕ → List ℕ → Table → Option ℕ → Result TempTableError ℕ × Table
define_at token key t none = place token key t
define_at token key t (some id) = (err (already_exists token), t)

abbrev pub append_at : List ℕ → List ℕ → Table → Option ℕ → Result TempTableError ℕ × Table
append_at token key t none = (err (does_not_exist token), t)
append_at token key t (some id) = place token key (record t { ids = remove key t.ids })

abbrev pub drop_at : List ℕ → List ℕ → Table → Option ℕ → Result TempTableError (Unit {0}) × Table
drop_at token key t none = (err (does_not_exist token), t)
drop_at token key t (some id) = (ok tt, record t { ids = remove key t.ids })

module _ (table : CaseTable) where
  abbrev pub spec_define : List ℕ → Table → Result TempTableError ℕ × Table
  spec_define name t = define_at name (folded_name table name) t (t.ids (folded_name table name))

  abbrev pub spec_append : List ℕ → Table → Result TempTableError ℕ × Table
  spec_append name t = append_at name (folded_name table name) t (t.ids (folded_name table name))

  abbrev pub spec_drop : List ℕ → Table → Result TempTableError (Unit {0}) × Table
  spec_drop name t = drop_at name (folded_name table name) t (t.ids (folded_name table name))

module _ (Column Binding : Type 0) (table : CaseTable) where
  abbrev pub key_visible : List ℕ → Entry Column Binding table → Bool
  key_visible key e = e.visible && chars_eq (folded_name table e.name) key

  abbrev pub id_if : Option ℕ → Bool → ℕ → Option ℕ
  id_if (some later) here id = some later
  id_if none here id = if here then some id else none

  -- The identifier under a key is that of the last visible entry.
  abbrev pub id_of : List ℕ → List (Entry Column Binding table) → Option ℕ
  id_of key [] = none
  id_of key (e ∷ es) = id_if (id_of key es) (key_visible key e) e.id

  abbrev pub view : Manager Column Binding table → Table
  view m = record { ids = λ key. id_of key m.entries; count = length m.entries }

  abbrev pub entry_id : Option (Entry Column Binding table) → Option ℕ
  entry_id none = none
  entry_id (some e) = some e.id

  answers-key_visible :
      (name : List ℕ) (e : Entry Column Binding table)
      → answers Column Binding table name e ≡ key_visible (folded_name table name) e
  answers-key_visible name e = ap (λ b. e.visible && b) (names_equal-key table e.name name)

  later_or-id_if :
      (later : Option (Entry Column Binding table)) (here : Bool) (e : Entry Column Binding table)
      → entry_id (later_or Column Binding table later here e) ≡ id_if (entry_id later) here e.id
  later_or-id_if (some l) here e = refl
  later_or-id_if none true e = refl
  later_or-id_if none false e = refl

  -- Looking a name up is looking its key up.
  pub last_visible-id_of :
      (name : List ℕ) (es : List (Entry Column Binding table))
      → entry_id (last_visible Column Binding table name es) ≡ id_of (folded_name table name) es
  unfolding last_visible
  last_visible-id_of name [] = refl
  last_visible-id_of name (e ∷ es) =
      later_or-id_if (last_visible Column Binding table name es)
        (answers Column Binding table name e) e
      ∙ ap (λ o. id_if o (answers Column Binding table name e) e.id) (last_visible-id_of name es)
      ∙ ap (λ b. id_if (id_of (folded_name table name) es) b e.id) (answers-key_visible name e)

  id_if-last :
      (last here : Bool) (id id' : ℕ) (earlier : Option ℕ)
      → id_if (if last then some id else earlier) here id'
        ≡ (if last then some id else id_if earlier here id')
  id_if-last true here id id' earlier = refl
  id_if-last false here id id' earlier = refl

  pub id_of_snoc :
      (key : List ℕ) (es : List (Entry Column Binding table)) (e : Entry Column Binding table)
      → id_of key (es ++ (e ∷ [])) ≡ (if key_visible key e then some e.id else id_of key es)
  id_of_snoc key [] e = refl
  id_of_snoc key (x ∷ xs) e =
      ap (λ o. id_if o (key_visible key x) x.id) (id_of_snoc key xs e)
      ∙ id_if-last (key_visible key e) (key_visible key x) e.id x.id (id_of key xs)

  -- Hidden by the key `hidden`, an entry is seen under no key that equals it, and unchanged else.
  key_visible-hidden :
      (hidden : List ℕ) (key : List ℕ) (e : Entry Column Binding table)
      → key_visible key
          (if names_equal table e.name hidden then record e { visible = false } else e)
        ≡ (if chars_eq (folded_name table hidden) key then false else key_visible key e)
  key_visible-hidden hidden key e =
      let by_key = names_equal-key table e.name hidden in
      let f = folded_name table e.name in
      let h = folded_name table hidden in
      elim (Bool-cases (chars_eq f h)) [
        | inl same ↦
            let eq = chars_eq-true f h same in
            rw (by_key ∙ same, ap (λ x. chars_eq x key) eq) (ground arith)
        | inr apart ↦ elim (Bool-cases (chars_eq h key)) [
          | inl here ↦
              let eq = chars_eq-true h key here in
              rw (by_key ∙ apart, here, ap (chars_eq f) (sym eq) ∙ apart) (ground arith)
          | inr there ↦ rw (by_key ∙ apart, there)
        ]
      ]

  pub id_if-none :
      (later : Option ℕ) (here : Bool) (id : ℕ)
      → id_if later here id ≡ none
      → (later ≡ none) × (here ≡ false)
  id_if-none (some l) here id h = cc
  id_if-none none true id h = cc
  id_if-none none false id h = (refl, refl)

  hidden_id :
      (b : Bool) (e : Entry Column Binding table)
      → (if b then record e { visible = false } else e).id ≡ e.id
  hidden_id true e = refl
  hidden_id false e = refl

  id_if_removed :
      (b : Bool) (later : Option ℕ) (here : Bool) (id : ℕ)
      → id_if (if b then none else later) (if b then false else here) id
        ≡ (if b then none else id_if later here id)
  id_if_removed true later here id = refl
  id_if_removed false later here id = refl

  pub id_of-hide_entries :
      (hidden key : List ℕ) (es : List (Entry Column Binding table))
      → id_of key (hide_entries Column Binding table hidden es)
        ≡ remove (folded_name table hidden) (λ k. id_of k es) key
  id_of-hide_entries hidden key [] =
      if_elim (λ o. ◌≡◌ {A = Option ℕ} none o) (chars_eq (folded_name table hidden) key) none none
        (λ _. refl) (λ _. refl)
  id_of-hide_entries hidden key (e ∷ es) =
      let e' = if names_equal table e.name hidden then record e { visible = false } else e in
      let here = chars_eq (folded_name table hidden) key in
      let later = id_of key (hide_entries Column Binding table hidden es) in
      ap (λ i. id_if later (key_visible key e') i) (hidden_id (names_equal table e.name hidden) e)
      ∙ ap (λ b. id_if later b e.id) (key_visible-hidden hidden key e)
      ∙ ap (λ o. id_if o (if here then false else key_visible key e) e.id)
          (id_of-hide_entries hidden key es)
      ∙ id_if_removed here (id_of key es) (key_visible key e) e.id

  pub length-hide_entries :
      (hidden : List ℕ) (es : List (Entry Column Binding table))
      → length (hide_entries Column Binding table hidden es) ≡ length es
  length-hide_entries hidden [] = refl
  length-hide_entries hidden (e ∷ es) = ap suc (length-hide_entries hidden es)
