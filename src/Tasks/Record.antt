-- ===== src/Tasks/Record.antt =====
-- seekbase/struct/task.py: a task, and the JSON object that carries it.
use seekbase.Base.{
  ℕ, Text, codes, List, [], ◌∷◌, ◌++◌, Option, none, some, same, if◌then◌else◌, Result, ok, err,
  other,
}
use seekbase.Admin.Replay.{Stats}

pub record Task : Type 0 where
  pub id : Text
  pub op : Text
  pub state : Text
  pub error : Option Text
  pub matched : Option ℕ
  pub stats : Option Stats
  pub query : Option Text
  pub rows : Option ℕ
  pub submitted_at : Option Text
  pub finished_at : Option Text

-- the values of the JSON object, `absent` for null
pub data Field : Type 0 where
  absent : Field
  text : Text → Field
  number : ℕ → Field
  stats : Stats → Field

abbrev pub WireTask : Type 0
WireTask = List (Text × Field)

unfoldable pub field : Text → WireTask → Field
unfolding same
field k [] = absent
field k ((j, v) ∷ d) = if same j k then v else field k d

abbrev pub text_field : Option Text → Field
text_field none = absent
text_field (some t) = text t

abbrev pub number_field : Option ℕ → Field
number_field none = absent
number_field (some n) = number n

abbrev pub stats_field : Option Stats → Field
stats_field none = absent
stats_field (some s) = stats s

-- `if v is not None: d[k] = v`
abbrev pub entry : Text → Field → WireTask
entry k absent = []
entry k (text t) = (k, text t) ∷ []
entry k (number n) = (k, number n) ∷ []
entry k (stats s) = (k, stats s) ∷ []

-- Task.to_wire
unfoldable pub to_wire : Task → WireTask
to_wire t =
    (codes "task", text t.id)
    ∷ (codes "op", text t.op)
    ∷ (codes "state", text t.state)
    ∷ (codes "error", text_field t.error)
    ∷ (entry (codes "matched") (number_field t.matched)
        ++ (entry (codes "stats") (stats_field t.stats)
            ++ (entry (codes "query") (text_field t.query)
                ++ (entry (codes "rows") (number_field t.rows)
                    ++ (entry (codes "submitted_at") (text_field t.submitted_at)
                        ++ entry (codes "finished_at") (text_field t.finished_at))))))

abbrev pub get_text : Field → Option Text
get_text (text t) = some t
get_text absent = none
get_text (number n) = none
get_text (stats s) = none

abbrev pub get_number : Field → Option ℕ
get_number (number n) = some n
get_number absent = none
get_number (text t) = none
get_number (stats s) = none

abbrev pub get_stats : Field → Option Stats
get_stats (stats s) = some s
get_stats absent = none
get_stats (text t) = none
get_stats (number n) = none

abbrev pub or_default : Option Text → Text → Text
or_default none d = d
or_default (some t) d = t

-- d["ticket"]
unfoldable pub ticket_id : WireTask → Result Text
unfolding field
ticket_id d = elim (get_text (field (codes "ticket") d)) [ none ↦ err other | some t ↦ ok t ]

-- `d.get("task") or d["ticket"]`
unfoldable pub wire_id : Option Text → WireTask → Result Text
unfolding ticket_id
wire_id none d = ticket_id d
wire_id (some []) d = ticket_id d
wire_id (some (c ∷ s)) d = ok (c ∷ s)

abbrev pub with_id : WireTask → Result Text → Result Task
with_id d (err e) = err e
with_id d (ok id) = ok (record {
  id = id;
  op = or_default (get_text (field (codes "op") d)) [];
  state = or_default (get_text (field (codes "state") d)) (codes "done");
  error = get_text (field (codes "error") d);
  matched = get_number (field (codes "matched") d);
  stats = get_stats (field (codes "stats") d);
  query = get_text (field (codes "query") d);
  rows = get_number (field (codes "rows") d);
  submitted_at = get_text (field (codes "submitted_at") d);
  finished_at = get_text (field (codes "finished_at") d);
})

-- Task.from_wire
unfoldable pub from_wire : WireTask → Result Task
unfolding wire_id field
from_wire d = with_id d (wire_id (get_text (field (codes "task") d)) d)
