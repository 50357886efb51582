-- ===== src/TempTables/Run.antt =====
-- The statements of a batch on the manager of src/query/core/temp_tables.rs.
use open_sdbl.Prelude.{
  ℕ, suc, ◌≡◌, refl, sym, ap, ◌∙◌, true, List, [], ◌∷◌, Option, none, some, ◌==◌, if_elim, length,
  arith,
}
use open_sdbl.Prelude.Result.{Result, ok, err, stuck}
use open_sdbl.Names.{CaseTable, folded_name}
use open_sdbl.TempTables.{
  TempTableError, Definition, Manager, new_manager, clear, define, append, drop_table,
}
use open_sdbl.TempTables.Checks.{mark_materialized, materialize}
use open_sdbl.TempTables.Spec.{
  Table, spec_define, spec_append, spec_drop, id_if, key_visible, id_of, view,
}
use open_sdbl.TempTables.Refines.{
  table_path, define-Refines, append-Refines, drop_table-DropRefines, dropped,
}
use open_sdbl.TempTables.Valid.{
  Entries, Numbered, Apart, Valid, define-Valid, append-Valid, drop_table-Valid, new_manager-Valid,
  clear-Valid,
}

-- What a statement, or the host after it, does with the manager.
pub data Op (Column Binding : Type 0) : Type 0 where
  define_op append_op : (List ℕ → List ℕ) → Binding → List ℕ → Definition Column → Op Column Binding
  drop_op : List ℕ → Op Column Binding
  materialize_op : ℕ → Op Column Binding
  clear_op : Op Column Binding

-- The answer of an operation: the identifier of what it defined, if it defines.
abbrev pub Answer : Type 0
Answer = Result TempTableError (Option ℕ)

abbrev pub numbered_answer : Result TempTableError ℕ → Answer
numbered_answer (ok id) = ok (some id)
numbered_answer (err e) = err e
numbered_answer stuck = stuck

abbrev pub plain_answer : Result TempTableError (Unit {0}) → Answer
plain_answer (ok u) = ok none
plain_answer (err e) = err e
plain_answer stuck = stuck

module _ (Column Binding : Type 0) (table : CaseTable) where
  abbrev pub perform :
      Op Column Binding → Manager Column Binding table → Answer × Manager Column Binding table
  perform (define_op quote b name d) m =
      let (r, m') = define Column Binding table quote b name d m in (numbered_answer r, m')
  perform (append_op quote b name d) m =
      let (r, m') = append Column Binding table quote b name d m in (numbered_answer r, m')
  perform (drop_op name) m =
      let (r, m') = drop_table Column Binding table name m in
      (plain_answer (dropped Column Binding table r), m')
  perform (materialize_op id) m = (ok none, materialize Column Binding table id m)
  perform clear_op m = (ok none, clear Column Binding table m)

  abbrev pub spec_perform : Op Column Binding → Table → Answer × Table
  spec_perform (define_op quote b name d) t =
      let (r, t') = spec_define table name t in (numbered_answer r, t')
  spec_perform (append_op quote b name d) t =
      let (r, t') = spec_append table name t in (numbered_answer r, t')
  spec_perform (drop_op name) t = let (r, t') = spec_drop table name t in (plain_answer r, t')
  spec_perform (materialize_op id) t = (ok none, t)
  spec_perform clear_op t = (ok none, record { ids = λ key. none; count = 0 })

  abbrev pub run :
      List (Op Column Binding)
      → Manager Column Binding table
      → List Answer × Manager Column Binding table
  run [] m = ([], m)
  run (op ∷ ops) m = let (r, m') = perform op m in let (rs, m'') = run ops m' in (r ∷ rs, m'')

  abbrev pub spec_run : List (Op Column Binding) → Table → List Answer × Table
  spec_run [] t = ([], t)
  spec_run (op ∷ ops) t =
      let (r, t') = spec_perform op t in let (rs, t'') = spec_run ops t' in (r ∷ rs, t'')

  length-mark_materialized :
      (id : ℕ) (es : Entries Column Binding table)
      → length (mark_materialized Column Binding table id es) ≡ length es
  length-mark_materialized id [] = refl
  length-mark_materialized id (e ∷ es) =
      if_elim (λ (xs : Entries Column Binding table). length xs ≡ length (e ∷ es)) (e.id == id)
        (record e { materialized = true } ∷ es) (e ∷ mark_materialized Column Binding table id es)
        (λ _. refl) (λ _. ap suc (length-mark_materialized id es))

  id_of-mark_materialized :
      (id : ℕ) (key : List ℕ) (es : Entries Column Binding table)
      → id_of Column Binding table key (mark_materialized Column Binding table id es)
        ≡ id_of Column Binding table key es
  id_of-mark_materialized id key [] = refl
  id_of-mark_materialized id key (e ∷ es) =
      if_elim (λ xs. id_of Column Binding table key xs ≡ id_of Column Binding table key (e ∷ es))
        (e.id == id) (record e { materialized = true } ∷ es)
        (e ∷ mark_materialized Column Binding table id es) (λ _. refl)
        (λ _.
          ap (λ o. id_if Column Binding table o (key_visible Column Binding table key e) e.id)
            (id_of-mark_materialized id key es))

  Numbered-mark_materialized :
      (id k : ℕ) (es : Entries Column Binding table)
      → Numbered Column Binding table k es
      → Numbered Column Binding table k (mark_materialized Column Binding table id es)
  Numbered-mark_materialized id k [] h = tt
  Numbered-mark_materialized id k (e ∷ es) (first, rest) =
      if_elim (Numbered Column Binding table k) (e.id == id) (record e { materialized = true } ∷ es)
        (e ∷ mark_materialized Column Binding table id es) (λ _. (first, rest))
        (λ _. (first, Numbered-mark_materialized id (suc k) es rest))

  Apart-mark_materialized :
      (id : ℕ) (es : Entries Column Binding table)
      → Apart Column Binding table es
      → Apart Column Binding table (mark_materialized Column Binding table id es)
  Apart-mark_materialized id [] h = tt
  Apart-mark_materialized id (e ∷ es) (first, rest) =
      if_elim (Apart Column Binding table) (e.id == id) (record e { materialized = true } ∷ es)
        (e ∷ mark_materialized Column Binding table id es) (λ _. (first, rest))
        (λ _. (
          λ seen. id_of-mark_materialized id (folded_name table e.name) es ∙ first seen,
          Apart-mark_materialized id es rest,
        ))

  materialize-Valid :
      (id : ℕ) (m : Manager Column Binding table)
      → Valid Column Binding table m
      → Valid Column Binding table (materialize Column Binding table id m)
  unfolding materialize
  materialize-Valid id m v = record {
    numbered = Numbered-mark_materialized id 0 m.entries v.numbered;
    counted = v.counted ∙ sym (length-mark_materialized id m.entries);
    bounded = omega (arith, v.bounded, length-mark_materialized id m.entries);
    bound = λ h. ap (mark_materialized Column Binding table id) (v.bound h);
    apart = Apart-mark_materialized id m.entries v.apart;
  }

  perform-Valid :
      (op : Op Column Binding) (m : Manager Column Binding table)
      → Valid Column Binding table m
      → Valid Column Binding table (perform op m).1
  perform-Valid (define_op quote b name d) m v =
      define-Valid Column Binding table quote b name d m v
  perform-Valid (append_op quote b name d) m v =
      append-Valid Column Binding table quote b name d m v
  perform-Valid (drop_op name) m v = drop_table-Valid Column Binding table name m v
  perform-Valid (materialize_op id) m v = materialize-Valid id m v
  perform-Valid clear_op m v = clear-Valid Column Binding table m

  run_from-Valid :
      (ops : List (Op Column Binding)) (m : Manager Column Binding table)
      → Valid Column Binding table m
      → Valid Column Binding table (run ops m).1
  run_from-Valid [] m v = v
  run_from-Valid (op ∷ ops) m v = run_from-Valid ops (perform op m).1 (perform-Valid op m v)

  -- After every sequence of definitions, appends, drops, materializations and clears from the empty
  -- manager: the identifiers of the entries count from 1 in their order and the next one is known,
  -- there are 256 entries at most, an entry stands only in a bound manager, and no two visible entries
  -- have names that are equal up to case.
  pub run-Valid :
      (ops : List (Op Column Binding))
      → Valid Column Binding table (run ops (new_manager Column Binding table)).1
  run-Valid ops =
      run_from-Valid ops (new_manager Column Binding table) (new_manager-Valid Column Binding table)

  -- An answer and a manager show the contract's answer and table.
  abbrev pub Shows {ℓ} : {A : Type ℓ} → A × Manager Column Binding table → A × Table → Type ℓ
  Shows (r, m) (s, t) = (r ≡ s) × (view Column Binding table m ≡ t)

  perform-Shows :
      (op : Op Column Binding) (m : Manager Column Binding table)
      → Valid Column Binding table m
      → Shows (perform op m) (spec_perform op (view Column Binding table m))
  unfolding materialize
  perform-Shows (define_op quote b name d) m v =
      let (r, t) = define-Refines Column Binding table quote b name d m v.counted in
      (ap numbered_answer r, t)
  perform-Shows (append_op quote b name d) m v =
      let (r, t) = append-Refines Column Binding table quote b name d m v.counted in
      (ap numbered_answer r, t)
  perform-Shows (drop_op name) m v =
      let (r, t) = drop_table-DropRefines Column Binding table name m in (ap plain_answer r, t)
  perform-Shows (materialize_op id) m v = (
    refl,
    table_path (λ key. id_of-mark_materialized id key m.entries)
        (length-mark_materialized id m.entries),
  )
  perform-Shows clear_op m v = (refl, refl)

  run_from-Shows :
      (ops : List (Op Column Binding)) (m : Manager Column Binding table)
      → Valid Column Binding table m
      → Shows (run ops m) (spec_run ops (view Column Binding table m))
  run_from-Shows [] m v = (refl, refl)
  run_from-Shows (op ∷ ops) m v =
      let (r, t) = perform-Shows op m v in
      let (rs, t') = run_from-Shows ops (perform op m).1 (perform-Valid op m v) in
      let next = (spec_perform op (view Column Binding table m)).1 in
      let same : spec_run ops (view Column Binding table (perform op m).1) ≡ spec_run ops next =
        ap (spec_run ops) t in
      (cc, t' ∙ ap (λ (p : List Answer × Table). p.1) same)

  -- From the empty manager, every sequence of operations gives the answers of the contract, and what
  -- the manager shows then is the contract's table: a map from the keys of names to identifiers, in
  -- which a definition needs a free key, an append and a drop a taken one, and where each new table
  -- gets the number of definitions so far, of which there are 256 at most.
  pub run-Shows :
      (ops : List (Op Column Binding))
      → Shows
          (run ops (new_manager Column Binding table))
          (spec_run ops (record { ids = λ key. none; count = 0 }))
  run-Shows ops =
      run_from-Shows ops (new_manager Column Binding table) (new_manager-Valid Column Binding table)
