-- ===== src/Admin/Live.antt =====
-- The rows that a delete finds.
use seekbase.Base.{
  ◌≡◌, Text, List, [], ◌∷◌, map, Bool, true, none, some, same, same_iff, member, select, ◌||◌,
  Bool-cases, inl, inr, ◌⊎◌, arith,
}
use seekbase.Base.Keyed.{find_by, Distinct}
use seekbase.Value.{is_null, str}
use seekbase.Schema.Data.{TableSpec}
use seekbase.Store.Rows.{StoredRow, row_key, key}
use seekbase.Store.Visible.{visible}
use seekbase.Store.Change.{live_keys}

-- The rows that a delete finds are live, and each is the row of its key.
module _ (spec : TableSpec) (matches : StoredRow → Bool) where
  abbrev pub IsLive : Text → List StoredRow → Type 0
  IsLive k rows =
      (r : StoredRow) × (find_by (row_key spec) k rows ≡ some r) × (is_null r.deleted_ds ≡ true)

  live_keys-cons :
      (x : StoredRow) (rows : List StoredRow) (k : Text)
      → member k (map str (live_keys spec matches (x ∷ rows))) ≡ true
      → (is_null x.deleted_ds ≡ true) × (same (row_key spec x) k ≡ true)
        ⊎ (member k (map str (live_keys spec matches rows)) ≡ true)
  unfolding live_keys visible select member
  live_keys-cons x rows k h = elim (Bool-cases (is_null x.deleted_ds)) [
    | inl live ↦ elim (Bool-cases (matches x)) [
      | inl m ↦
          let h' : (same (row_key spec x) k || member k (map str (live_keys spec matches rows)))
              ≡ true =
            unfold key in rw m at (rw live at h) in
          ground (arith, live, h')
      | inr m ↦ inr (rw m at (rw live at h))
    ]
    | inr dead ↦ inr (rw dead at h)
  ]

  pub live_keys-IsLive :
      (rows : List StoredRow) (k : Text)
      → Distinct (row_key spec) rows
      → member k (map str (live_keys spec matches rows)) ≡ true
      → IsLive k rows
  unfolding find_by
  live_keys-IsLive [] k d h = absurd (unfold live_keys visible select member in ground (arith, h))
  live_keys-IsLive (x ∷ rows) k d h = elim (live_keys-cons x rows k h) [
    | inl (live, found) ↦ (x, rw found, live)
    | inr m ↦
        let (r, e, live) = live_keys-IsLive rows k d.1 m in
        elim (Bool-cases (same (row_key spec x) k)) [
          | inl same' ↦ absurd (
              let p = (same_iff (row_key spec x) k).0 same' in
              let n : find_by (row_key spec) k rows ≡ none = rw p at d.0 in cc (n, e))
          | inr differ ↦ (r, rw differ e, live)
        ]
  ]
