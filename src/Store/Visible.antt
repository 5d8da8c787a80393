-- ===== src/Store/Visible.antt =====
-- `_asof_conds`, `_visible` and `_check_ds`: the time machine. A condition is kept as data, with the
-- meaning that SQL gives it; a comparison with NULL does not hold.
use seekbase.Base.{
  Text, List, [], ◌∷◌, ◌++◌, Bool, true, false, not, ◌&&◌, ◌||◌, Option, none, some, text_le,
  select, if◌then◌else◌, Result, ok, err, query_error,
}
use seekbase.Base.Number.{is_digit}
use seekbase.Schema.Types.{at_end}
use seekbase.Value.{Value, text, is_null}
use seekbase.Store.Rows.{StoredRow}

pub data Cond : Type 0 where
  deleted_ds_is_null : Cond
  ds_le : Text → Cond
  deleted_ds_is_null_or_gt : Text → Cond
  ds_ge : Text → Cond

-- _asof_conds(ds_start, ds_end)
unfoldable pub end_conds : Option Text → List Cond
end_conds none = deleted_ds_is_null ∷ []
end_conds (some d) = ds_le d ∷ deleted_ds_is_null_or_gt d ∷ []

unfoldable pub start_conds : Option Text → List Cond
start_conds none = []
start_conds (some d) = ds_ge d ∷ []

unfoldable pub asof_conds : Option Text → Option Text → List Cond
unfolding end_conds start_conds
asof_conds ds_start ds_end = end_conds ds_end ++ start_conds ds_start

-- value <= d, in SQL; the metadata columns are VARCHAR
unfoldable pub sql_le : Value → Text → Bool
unfolding text_le
sql_le (text t) d = text_le t d
sql_le _ d = false

unfoldable pub sql_ge : Value → Text → Bool
unfolding text_le
sql_ge (text t) d = text_le d t
sql_ge _ d = false

unfoldable pub sql_gt : Value → Text → Bool
unfolding text_le
sql_gt (text t) d = not (text_le t d)
sql_gt _ d = false

unfoldable pub holds : Cond → StoredRow → Bool
unfolding sql_le sql_ge sql_gt
holds deleted_ds_is_null r = is_null r.deleted_ds
holds (ds_le d) r = sql_le r.ds d
holds (deleted_ds_is_null_or_gt d) r = is_null r.deleted_ds || sql_gt r.deleted_ds d
holds (ds_ge d) r = sql_ge r.ds d

-- the conditions joined by AND
unfoldable pub all_hold : List Cond → StoredRow → Bool
unfolding holds
all_hold [] r = true
all_hold (c ∷ cs) r = holds c r && all_hold cs r

-- _visible: the rows of the view
unfoldable pub visible : Option Text → Option Text → List StoredRow → List StoredRow
unfolding asof_conds all_hold select
visible ds_start ds_end rows = select (all_hold (asof_conds ds_start ds_end)) rows

-- `^\d{8}$`, with what `$` accepts
unfoldable pub is_ds : Text → Bool
unfolding is_digit at_end
is_ds (a ∷ b ∷ c ∷ d ∷ e ∷ f ∷ g ∷ h ∷ rest) =
    is_digit a
    && is_digit b
    && is_digit c
    && is_digit d
    && is_digit e
    && is_digit f
    && is_digit g
    && is_digit h
    && at_end rest
is_ds _ = false

-- _check_ds
unfoldable pub check_ds : Option Text → Result (Unit {0})
unfolding is_ds
check_ds none = ok tt
check_ds (some value) = if is_ds value then ok tt else err query_error
