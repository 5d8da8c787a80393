-- ===== src/Admin/History.antt =====
-- Every operation that succeeds keeps all tables in step with their events.
use seekbase.Base.{
  ◌≡◌, refl, sym, ap, ◌∙◌, Text, List, [], ◌∷◌, map, Bool, false, none, some, same, same_iff,
  if◌then◌else◌, All, Bool-cases, inl, inr, Result, ok, err, query_error, >>=-eq-ok, arith,
}
use mathlib.Core.Path.{subst}
use seekbase.Value.{Value, text, Dict}
use seekbase.Schema.Data.{TableSpec, Schema, table}
use seekbase.Schema.Find.{find_table-name, find_table-All}
use seekbase.Store.Rows.{StoredRow, put}
use seekbase.Store.Validate.{validate}
use seekbase.Store.Change.{new_row, insert_rows, soft_delete, match_live, live_keys, one_statement}
use seekbase.Files.Mirror.{Mirror, append_all, delete_line, write_puts, write_deletes, iter_events}
use seekbase.Write.Execute.{
  World, Engine, Outcome, Step, or_raise, commit, inserted, insert_records, execute_insert,
  delete_keys, execute_delete, Op, insert, delete, execute,
}
use seekbase.Admin.Synced.{Synced}
use seekbase.Admin.Marked.{iter_events-append_all_ne}
use seekbase.Admin.Live.{live_keys-IsLive}
use seekbase.Admin.Deletes.{Synced-delete}
use seekbase.Admin.Inserts.{IsMirrored, SameWorld, row_of, line_of, Synced-insert}

or_raise-eq-ok :
    {A B : Type 0} (m : Result A) (e : Engine) (f : A → Step B) {b : B} {e' : Engine}
    → or_raise m e f ≡ (ok b, e')
    → (a : A) × (m ≡ ok a) × (f a ≡ (ok b, e'))
unfolding or_raise
or_raise-eq-ok (ok a) e f h = (a, refl, h)
or_raise-eq-ok (err x) e f h = absurd (cc (ap (λ (p : Step _). p.0) h))

match_live-eq-ok :
    (v : World) (spec : TableSpec) (where_text : Text) (rows : List StoredRow) (keys : List Value)
    → match_live v.valid v.matches spec where_text rows ≡ ok keys
    → (stmt : Text) × (keys ≡ live_keys spec (v.matches stmt) rows)
unfolding match_live
match_live-eq-ok v spec where_text rows keys h =
    let (stmt, _, checked) =
      >>=-eq-ok (one_statement where_text)
        (λ s. if v.valid s then ok (live_keys spec (v.matches s) rows) else err query_error) h in
    (stmt, ground (arith, checked))

module _ (w : World) (schema : Schema) (mirrored : All IsMirrored schema.tables) where
  -- Every table is in step with its events.
  abbrev pub AllSynced : Engine → Type 0
  AllSynced e =
      (name : Text) (spec : TableSpec)
      → table schema name ≡ ok spec
      → Synced w spec (e.tables spec.name) (iter_events spec.name e.mirror)

  table_name : (name : Text) (spec : TableSpec) → table schema name ≡ ok spec → spec.name ≡ name
  unfolding table
  table_name name spec h = find_table-name name schema.tables spec h

  table-IsMirrored :
      (name : Text) (spec : TableSpec) → table schema name ≡ ok spec → IsMirrored spec
  unfolding table
  table-IsMirrored name spec h = find_table-All IsMirrored name schema.tables spec h mirrored

  -- Changing one table and its events.
  AllSynced-put :
      (name : Text) (spec : TableSpec) (e : Engine) (rows : List StoredRow) (mirror : Mirror)
      → table schema name ≡ ok spec
      → Synced w spec rows (iter_events spec.name mirror)
      → ((n : Text) → same spec.name n ≡ false → iter_events n mirror ≡ iter_events n e.mirror)
      → AllSynced e
      → AllSynced (record { tables = put spec.name rows e.tables; mirror = mirror })
  AllSynced-put name spec e rows mirror h s others all n t ht =
      elim (Bool-cases (same spec.name t.name)) [
        | inl same' ↦
            let eq : t ≡ spec =
              (let p = (same_iff spec.name t.name).0 same' in
                let q = sym (table_name n t ht) in
                let r = table_name name spec h in
                let names : n ≡ name = sym (table_name n t ht) ∙ sym p ∙ r in
                ok-injective (sym ht ∙ (rw names h))) in
            rw same' (rw eq s)
        | inr differ ↦ rw differ (rw (others t.name differ) (all n t ht))
      ]
    where
      ok-injective : {a b : TableSpec} → ok a ≡ ok b → a ≡ b
      ok-injective p = cc p

  module _ (v : World) (like : SameWorld w v) (e e' : Engine) (out : Outcome)
      (all : AllSynced e) where
    commit-AllSynced :
        (name : Text) (spec : TableSpec) (records : List Dict)
        → table schema name ≡ ok spec
        → commit v spec records e ≡ (ok out, e')
        → AllSynced e'
    unfolding commit write_puts
    commit-AllSynced name spec records h run =
        let rows = map (new_row v.dumps spec (text v.today) (text v.now)) records in
        let stored = insert_rows (v.accepts spec) spec rows (e.tables spec.name) in
        let changed : Engine = record {
          tables = put spec.name stored.1 e.tables;
          mirror = write_puts spec records v.today v.now e.mirror;
        } in
        let end : Step Outcome =
          (ok (inserted (if v.searching then some spec.name else none)), changed) in
        let (_, inserted_all, rest) =
          or_raise-eq-ok {A = Unit {0}} stored.0 changed
            (λ _. or_raise (v.index spec records) changed (λ _. end)) run in
        let (_, _, last) =
          or_raise-eq-ok {A = Unit {0}} (v.index spec records) changed (λ _. end) rest in
        let good = table-IsMirrored name spec h in
        subst AllSynced (ap (λ (p : Step Outcome). p.1) last) (
          AllSynced-put name spec e
            (insert_rows (v.accepts spec) spec (map (row_of w v like spec good) records)
              (e.tables spec.name)).1
            (append_all v.today spec.name (map (line_of w v like spec good) records) e.mirror) h
            (Synced-insert w v like spec good records (e.tables spec.name) e.mirror inserted_all
              (all name spec h))
            (λ n differ.
              iter_events-append_all_ne v.today spec.name n
                (map (line_of w v like spec good) records) e.mirror differ)
            all)

    insert-AllSynced :
        (name : Text) (spec : TableSpec) (records : List Dict)
        → table schema name ≡ ok spec
        → insert_records v spec records e ≡ (ok out, e')
        → AllSynced e'
    unfolding insert_records
    insert-AllSynced name spec [] h run = subst AllSynced (ap (λ (p : Step Outcome). p.1) run) all
    insert-AllSynced name spec (r ∷ records) h run =
        let (_, _, rest) =
          or_raise-eq-ok {A = Unit {0}} (v.embed spec (r ∷ records)) e
            (λ _. commit v spec (r ∷ records) e) run in
        commit-AllSynced name spec (r ∷ records) h rest

    delete-AllSynced :
        (name : Text) (spec : TableSpec) (stmt : Text)
        → table schema name ≡ ok spec
        → delete_keys v spec (live_keys spec (v.matches stmt) (e.tables spec.name)) e ≡ (ok out, e')
        → AllSynced e'
    unfolding delete_keys write_deletes
    delete-AllSynced name spec stmt h run =
        let keys = live_keys spec (v.matches stmt) (e.tables spec.name) in
        let s = all name spec h in
        subst AllSynced (ap (λ (p : Step Outcome). p.1) run) (
          AllSynced-put name spec e
            (soft_delete spec keys (text v.today) (text v.now) (e.tables spec.name))
            (append_all v.today spec.name (map (delete_line v.now) keys) e.mirror) h
            (Synced-delete w spec (e.tables spec.name) e.mirror v.today v.now keys
              (λ k m. live_keys-IsLive spec (v.matches stmt) (e.tables spec.name) k s.distinct m) s)
            (λ n differ.
              iter_events-append_all_ne v.today spec.name n (map (delete_line v.now) keys) e.mirror
                differ)
            all)

    execute_delete-AllSynced :
        (name where_text : Text)
        → execute_delete v schema name where_text e ≡ (ok out, e')
        → AllSynced e'
    unfolding execute_delete match_live
    execute_delete-AllSynced name where_text run =
        let (spec, h, rest) =
          or_raise-eq-ok (table schema name) e
            (λ spec.
              or_raise (match_live v.valid v.matches spec where_text (e.tables name)) e
                (λ keys. delete_keys v spec keys e))
            run in
        let (keys, matched, last) =
          or_raise-eq-ok (match_live v.valid v.matches spec where_text (e.tables name)) e
            (λ keys. delete_keys v spec keys e) rest in
        let (stmt, found) = match_live-eq-ok v spec where_text (e.tables name) keys matched in
        delete-AllSynced name spec stmt h (
          ap (λ k. delete_keys v spec k e)
            (sym (
              found
              ∙ ap (λ n. live_keys spec (v.matches stmt) (e.tables n))
                  (sym (table_name name spec h))))
          ∙ last)

    execute_insert-AllSynced :
        (name : Text) (skip : Bool) (rows : List Dict)
        → execute_insert v schema name skip rows e ≡ (ok out, e')
        → AllSynced e'
    unfolding execute_insert
    execute_insert-AllSynced name skip rows run =
        let (records, _, rest) =
          or_raise-eq-ok (validate schema e.tables name skip rows) e
            (λ records. or_raise (table schema name) e (λ spec. insert_records v spec records e))
            run in
        let (spec, h, last) =
          or_raise-eq-ok (table schema name) e (λ spec. insert_records v spec records e) rest in
        insert-AllSynced name spec records h last

    -- An operation that succeeds keeps every table in step with its events.
    pub execute-AllSynced : (op : Op) → execute v schema op e ≡ (ok out, e') → AllSynced e'
    unfolding execute
    execute-AllSynced (insert name rows skip) run = execute_insert-AllSynced name skip rows run
    execute-AllSynced (delete name none) run = absurd (cc (ap (λ (p : Step Outcome). p.0) run))
    execute-AllSynced (delete name (some [])) run = absurd (cc (ap (λ (p : Step Outcome). p.0) run))
    execute-AllSynced (delete name (some (c ∷ s))) run = execute_delete-AllSynced name (c ∷ s) run
