-- ===== src/Tasks/Trip.antt =====
-- A task that goes over the wire, or through a line of the log, comes back as it was.
use seekbase.Base.{
  ℕ, Option, ◌≡◌, refl, ap, ◌∙◌, ◌≢◌, Text, codes, [], ◌∷◌, ◌++◌, false, none, some, same,
  same_refl, ok,
}
use seekbase.Tasks.Record.{
  Task, Field, absent, text, number, stats, WireTask, field, entry, to_wire, from_wire, wire_id,
  get_text, get_number, get_stats, with_id, or_default, text_field, number_field, stats_field,
}
use seekbase.Admin.Replay.{Stats}

field-entry_ne :
    (k j : Text) (f : Field) (d : WireTask)
    → same j k ≡ false
    → field k (entry j f ++ d) ≡ field k d
unfolding field
field-entry_ne k j absent d h = refl
field-entry_ne k j (text t) d h = rw h
field-entry_ne k j (number n) d h = rw h
field-entry_ne k j (stats s) d h = rw h

field-entry :
    (k : Text) (f : Field) (d : WireTask) → field k d ≡ absent → field k (entry k f ++ d) ≡ f
unfolding field
field-entry k absent d h = h
field-entry k (text t) d h = rw (same_refl k)
field-entry k (number n) d h = rw (same_refl k)
field-entry k (stats s) d h = rw (same_refl k)

field-entry_last : (k : Text) (f : Field) → field k (entry k f) ≡ f
unfolding field
field-entry_last k absent = refl
field-entry_last k (text t) = rw (same_refl k)
field-entry_last k (number n) = rw (same_refl k)
field-entry_last k (stats s) = rw (same_refl k)

field-entry_last_ne : (k j : Text) (f : Field) → same j k ≡ false → field k (entry j f) ≡ absent
unfolding field
field-entry_last_ne k j absent h = refl
field-entry_last_ne k j (text t) h = rw h
field-entry_last_ne k j (number n) h = rw h
field-entry_last_ne k j (stats s) h = rw h

-- What stands behind the field `error`.
module _ (m s q r b f : Field) where
  abbrev late : WireTask
  late = entry (codes "submitted_at") b ++ entry (codes "finished_at") f

  abbrev tail : WireTask
  tail =
      entry (codes "matched") m
      ++ (entry (codes "stats") s ++ (entry (codes "query") q ++ (entry (codes "rows") r ++ late)))

  late_ne :
      (k : Text)
      → same (codes "submitted_at") k ≡ false
      → same (codes "finished_at") k ≡ false
      → field k late ≡ absent
  late_ne k h i =
      field-entry_ne k (codes "submitted_at") b _ h
      ∙ field-entry_last_ne k (codes "finished_at") f i

  field-tail :
      (field (codes "matched") tail ≡ m)
      × (field (codes "stats") tail ≡ s)
      × (field (codes "query") tail ≡ q)
      × (field (codes "rows") tail ≡ r)
      × (field (codes "submitted_at") tail ≡ b)
      × (field (codes "finished_at") tail ≡ f)
  unfolding same
  field-tail = (
    field-entry (codes "matched") m _ (
        field-entry_ne (codes "matched") (codes "stats") s _ refl
        ∙ field-entry_ne (codes "matched") (codes "query") q _ refl
        ∙ field-entry_ne (codes "matched") (codes "rows") r _ refl
        ∙ late_ne (codes "matched") refl refl),
    field-entry_ne (codes "stats") (codes "matched") m _ refl
        ∙ field-entry (codes "stats") s _ (
            field-entry_ne (codes "stats") (codes "query") q _ refl
            ∙ field-entry_ne (codes "stats") (codes "rows") r _ refl
            ∙ late_ne (codes "stats") refl refl),
    field-entry_ne (codes "query") (codes "matched") m _ refl
        ∙ field-entry_ne (codes "query") (codes "stats") s _ refl
        ∙ field-entry (codes "query") q _ (
            field-entry_ne (codes "query") (codes "rows") r _ refl
            ∙ late_ne (codes "query") refl refl),
    field-entry_ne (codes "rows") (codes "matched") m _ refl
        ∙ field-entry_ne (codes "rows") (codes "stats") s _ refl
        ∙ field-entry_ne (codes "rows") (codes "query") q _ refl
        ∙ field-entry (codes "rows") r _ (late_ne (codes "rows") refl refl),
    field-entry_ne (codes "submitted_at") (codes "matched") m _ refl
        ∙ field-entry_ne (codes "submitted_at") (codes "stats") s _ refl
        ∙ field-entry_ne (codes "submitted_at") (codes "query") q _ refl
        ∙ field-entry_ne (codes "submitted_at") (codes "rows") r _ refl
        ∙ field-entry (codes "submitted_at") b _
            (field-entry_last_ne (codes "submitted_at") (codes "finished_at") f refl),
    field-entry_ne (codes "finished_at") (codes "matched") m _ refl
        ∙ field-entry_ne (codes "finished_at") (codes "stats") s _ refl
        ∙ field-entry_ne (codes "finished_at") (codes "query") q _ refl
        ∙ field-entry_ne (codes "finished_at") (codes "rows") r _ refl
        ∙ field-entry_ne (codes "finished_at") (codes "submitted_at") b _ refl
        ∙ field-entry_last (codes "finished_at") f,
  )

wire_id_ne : (id : Text) (d : WireTask) → id ≢ [] → wire_id (some id) d ≡ ok id
unfolding wire_id
wire_id_ne [] d h = absurd (h refl)
wire_id_ne (c ∷ s) d h = refl

get_text_lem : (o : Option Text) → get_text (text_field o) ≡ o
get_text_lem none = refl
get_text_lem (some t) = refl

get_number_lem : (o : Option ℕ) → get_number (number_field o) ≡ o
get_number_lem none = refl
get_number_lem (some n) = refl

get_stats_lem : (o : Option Stats) → get_stats (stats_field o) ≡ o
get_stats_lem none = refl
get_stats_lem (some s) = refl

-- The fields, read one by one.
with_id-ok :
    (t : Task) (d : WireTask)
    → or_default (get_text (field (codes "op") d)) [] ≡ t.op
    → or_default (get_text (field (codes "state") d)) (codes "done") ≡ t.state
    → get_text (field (codes "error") d) ≡ t.error
    → get_number (field (codes "matched") d) ≡ t.matched
    → get_stats (field (codes "stats") d) ≡ t.stats
    → get_text (field (codes "query") d) ≡ t.query
    → get_number (field (codes "rows") d) ≡ t.rows
    → get_text (field (codes "submitted_at") d) ≡ t.submitted_at
    → get_text (field (codes "finished_at") d) ≡ t.finished_at
    → with_id d (ok t.id) ≡ ok t
with_id-ok t d op state error matched stats' query rows submitted finished =
    rw (op, state, error, matched, stats', query, rows, submitted, finished)

-- For a task whose id is not empty, `from_wire` of what `to_wire` gives is the task.
pub from_wire-to_wire : (t : Task) → t.id ≢ [] → from_wire (to_wire t) ≡ ok t
unfolding from_wire to_wire field same
from_wire-to_wire t h =
    let (m, s, q, r, b, f) =
      field-tail (number_field t.matched) (stats_field t.stats) (text_field t.query)
        (number_field t.rows) (text_field t.submitted_at) (text_field t.finished_at) in
    ap (with_id (to_wire t)) (wire_id_ne t.id _ h)
    ∙ with_id-ok t (to_wire t) refl refl (get_text_lem t.error)
        (ap get_number m ∙ get_number_lem t.matched) (ap get_stats s ∙ get_stats_lem t.stats)
        (ap get_text q ∙ get_text_lem t.query) (ap get_number r ∙ get_number_lem t.rows)
        (ap get_text b ∙ get_text_lem t.submitted_at) (ap get_text f ∙ get_text_lem t.finished_at)

-- No task is written with the key of an old ticket.
pub field-ticket : (t : Task) → field (codes "ticket") (to_wire t) ≡ absent
unfolding to_wire field same
field-ticket t =
    field-entry_ne (codes "ticket") (codes "matched") (number_field t.matched) _ refl
    ∙ field-entry_ne (codes "ticket") (codes "stats") (stats_field t.stats) _ refl
    ∙ field-entry_ne (codes "ticket") (codes "query") (text_field t.query) _ refl
    ∙ field-entry_ne (codes "ticket") (codes "rows") (number_field t.rows) _ refl
    ∙ late_ne (number_field t.matched) (stats_field t.stats) (text_field t.query)
        (number_field t.rows) (text_field t.submitted_at) (text_field t.finished_at)
        (codes "ticket") refl refl
