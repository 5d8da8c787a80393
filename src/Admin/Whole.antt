-- ===== src/Admin/Whole.antt =====
-- A whole rebuild: embedding, clearing and replaying every table of the schema.
use seekbase.Base.{
  ◌≡◌, refl, sym, ap, ◌∙◌, Text, List, [], ◌∷◌, map, false, err, same, same_iff, same_refl, member,
  All, All-map₂, Bool-cases, inl, inr, ok, arith,
}
use mathlib.Core.Path.{subst}
use seekbase.Base.Keyed.{find_by}
use seekbase.Value.{Dict}
use seekbase.Schema.Data.{TableSpec, Schema, table, find_table}
use seekbase.Schema.Find.{find_table-All}
use seekbase.Schema.WellFormed.{AllNew, IsGoodSchema}
use seekbase.Schema.Accepts.{names_differ, find_table_each}
use seekbase.Store.Rows.{StoredRow, Tables, row_key, put, put_self}
use seekbase.Files.Mirror.{Mirror, iter_events}
use seekbase.Write.Execute.{World, Engine}
use seekbase.Admin.Replay.{
  Stats, add_table, replay_table, clear_tables, embed_tables, replay_tables, replay,
}
use seekbase.Admin.Synced.{Synced}
use seekbase.Admin.Rebuild.{replay_table-Synced}
use seekbase.Admin.Inserts.{IsMirrored}
use seekbase.Admin.Reached.{Reached, Reached-AllSynced}

abbrev name_of : TableSpec → Text
name_of t = t.name

-- Two databases have, for every key, the same row of a table.
abbrev pub SameRows : Tables → Tables → TableSpec → Type 0
SameRows a b spec =
    (k : Text) → find_by (row_key spec) k (a spec.name) ≡ find_by (row_key spec) k (b spec.name)

clear_tables-keeps :
    (specs : List TableSpec) (tables : Tables) (n : Text)
    → tables n ≡ []
    → clear_tables specs tables n ≡ []
unfolding clear_tables
clear_tables-keeps [] tables n h = h
clear_tables-keeps (spec ∷ specs) tables n h =
    clear_tables-keeps specs (put spec.name [] tables) n
      (elim (Bool-cases (same spec.name n)) [ inl e ↦ rw e | inr e ↦ rw e h ])

clear_tables-clears :
    (specs : List TableSpec) (tables : Tables)
    → All (λ t. clear_tables specs tables t.name ≡ []) specs
unfolding clear_tables
clear_tables-clears [] tables = tt
clear_tables-clears (spec ∷ specs) tables = (
  clear_tables-keeps specs (put spec.name [] tables) spec.name (put_self spec.name [] tables),
  clear_tables-clears specs (put spec.name [] tables),
)

embed_tables-ok :
    (w : World) (specs : List TableSpec) (mirror : Mirror)
    → ((spec : TableSpec) (records : List Dict) → w.embed spec records ≡ ok tt)
    → embed_tables w specs mirror ≡ ok tt
unfolding embed_tables
embed_tables-ok w [] mirror h = refl
embed_tables-ok w (spec ∷ specs) mirror h = rw (h spec) (embed_tables-ok w specs mirror h)

same_sym : (a b : Text) → same a b ≡ false → same b a ≡ false
same_sym a b h = elim (Bool-cases (same b a)) [
  | inl e ↦ absurd (ground (arith, h, e, same_iff a b, same_iff b a))
  | inr e ↦ e
]

-- What replaying some tables of different names makes of an emptied database.
record Replayed (w : World) (old : Engine) (specs : List TableSpec) (s : Stats) (tables : Tables)
    : Type 0 where
  stats : Stats
  rebuilt : Tables
  runs : replay_tables w specs old.mirror s tables ≡ (ok stats, rebuilt)
  others : (n : Text) → All (λ t. same n (name_of t) ≡ false) specs → rebuilt n ≡ tables n
  agree : All (SameRows rebuilt old.tables) specs

abbrev Rebuilt : World → Engine → TableSpec → List StoredRow → Type 0
Rebuilt w old spec rebuilt =
    (replay_table w spec (iter_events spec.name old.mirror) [] ≡ (ok tt, rebuilt))
    × ((k : Text)
        → find_by (row_key spec) k rebuilt ≡ find_by (row_key spec) k (old.tables spec.name))

Replayed-cons :
    (w : World) (old : Engine) (spec : TableSpec) (specs : List TableSpec) (s : Stats)
    (tables : Tables) (rows : List StoredRow)
    → tables spec.name ≡ []
    → All (λ t. same spec.name (name_of t) ≡ false) specs
    → Rebuilt w old spec rows
    → Replayed w old specs
        (add_table (iter_events spec.name old.mirror) s)
        (put spec.name rows tables)
    → Replayed w old (spec ∷ specs) s tables
unfolding replay_tables
Replayed-cons w old spec specs s tables rows empty differ one rest =
    let done : replay_table w spec (iter_events spec.name old.mirror) (tables spec.name)
        ≡ (ok tt, rows) =
      rw empty one.0 in
    record {
      stats = rest.stats;
      rebuilt = rest.rebuilt;
      runs =
          subst
            (λ p.
              elim p.0 [
                | ok _ ↦
                    replay_tables w specs old.mirror
                      (add_table (iter_events spec.name old.mirror) s) (put spec.name p.1 tables)
                | err e ↦ (err e, put spec.name p.1 tables)
              ]
              ≡ (ok rest.stats, rest.rebuilt))
            (sym done) rest.runs;
      others = λ n h. rest.others n h.1 ∙ rw (same_sym n spec.name h.0) refl;
      agree = (
        λ k.
            ap (find_by (row_key spec) k)
              (rest.others spec.name differ ∙ put_self spec.name rows tables)
            ∙ one.1 k,
        rest.agree,
      );
    }

replay_tables-Replayed :
    (w : World) (old : Engine) (seen : List Text) (specs : List TableSpec) (s : Stats)
    (tables : Tables)
    → AllNew seen (map name_of specs)
    → All (λ t. tables (name_of t) ≡ []) specs
    → All (λ t. Synced w t (old.tables (name_of t)) (iter_events (name_of t) old.mirror)) specs
    → Replayed w old specs s tables
unfolding replay_tables
replay_tables-Replayed w old seen [] s tables new empty synced = record {
  stats = s;
  rebuilt = tables;
  runs = refl;
  others = λ n _. refl;
  agree = tt;
}
replay_tables-Replayed w old seen (spec ∷ specs) s tables new empty synced =
    let events = iter_events spec.name old.mirror in
    let (rows, runs, found) = replay_table-Synced w spec (old.tables spec.name) events synced.0 in
    let differ =
      names_differ (spec.name ∷ seen) spec.name specs (unfold member in rw (same_refl spec.name))
        new.1 in
    Replayed-cons w old spec specs s tables rows empty.0 differ (runs, found)
      (replay_tables-Replayed w old (spec.name ∷ seen) specs (add_table events s)
        (put spec.name rows tables) new.1
        (All-map₂ (λ t. same spec.name (name_of t) ≡ false) (λ t. tables (name_of t) ≡ [])
          (λ t. put spec.name rows tables (name_of t) ≡ [])
          (λ t apart none_left. rw apart none_left) specs differ empty.1)
        synced.1)

-- In every state that successful writes reach from the empty database, under an accepted schema no
-- table of which has a column `_deleted`, and when the embedder answers, a rebuild succeeds, and the
-- database after it has in every table and for every key the row, live or deleted, that it had before.
pub replay-Reached :
    (w : World) (schema : Schema) (mirrored : All IsMirrored schema.tables) (e : Engine)
    → IsGoodSchema schema
    → ((spec : TableSpec) (records : List Dict) → w.embed spec records ≡ ok tt)
    → Reached w schema e
    → (s : Stats) × (rebuilt : Tables) × (replay w schema e ≡ (ok s, rebuilt))
      × ((name : Text) (spec : TableSpec)
          → table schema name ≡ ok spec
          → SameRows rebuilt e.tables spec)
unfolding replay table
replay-Reached w schema mirrored e good embeds reached =
    let all = Reached-AllSynced w schema mirrored e reached in
    let found = find_table_each [] schema.tables good.distinct in
    let r =
      replay_tables-Replayed w e [] schema.tables (record { tables = 0; rows = 0; deleted = 0 })
        (clear_tables schema.tables e.tables) good.distinct
        (clear_tables-clears schema.tables e.tables)
        (All-map₂ (λ t. find_table (name_of t) schema.tables ≡ ok t)
          (λ t. find_table (name_of t) schema.tables ≡ ok t)
          (λ t. Synced w t (e.tables (name_of t)) (iter_events (name_of t) e.mirror))
          (λ t _ h. all (name_of t) t h) schema.tables found found) in
    (
      r.stats,
      r.rebuilt,
      rw (replay, embed_tables-ok w schema.tables e.mirror embeds) r.runs,
      λ name spec h. find_table-All (SameRows r.rebuilt e.tables) name schema.tables spec h r.agree,
    )
