-- ===== src/Store/Fresh.antt =====
-- What `validate` lets through is new.
use seekbase.Base.{
  All, ◌≡◌, refl, sym, ap, ◌∙◌, Text, List, [], ◌∷◌, map, Bool, true, false, not, ◌&&◌, ◌||◌, same,
  same_iff, same_refl, member, select, Bool-cases, inl, inr, ok, >>=-eq-ok, arith,
}
use seekbase.Value.{Dict}
use seekbase.Schema.Data.{TableSpec, column_names}
use seekbase.Store.Rows.{StoredRow, key, row_key}
use seekbase.Store.Validate.{
  dedup, has_repeat, existing_keys, refuse_existing, check_keys, skip_keys, normalize_rows,
  validate_rows,
}

member-select :
    (f : Text → Bool) (k : Text) (l : List Text) → member k (select f l) ≡ (member k l && f k)
unfolding member select
member-select f k [] = refl
member-select f k (x ∷ l) = elim (Bool-cases (same x k)) [
  | inl e ↦
      let at_k = member-select f k l in
      let p : x ≡ k = (same_iff x k).0 e in
      rw p (
        rw (same_refl k) (elim (Bool-cases (f k)) [
          | inl g ↦ rw g (rw (same_refl k) refl)
          | inr g ↦ rw g (let off : (member k l && f k) ≡ false = ground (arith, g) in at_k ∙ off)
        ]))
  | inr e ↦ rw e (elim (Bool-cases (f x)) [
    | inl g ↦ rw g (rw e (member-select f k l))
    | inr g ↦ rw g (member-select f k l)
  ])
]

refuse_existing-ok :
    (existing : List Text) (records accepted : List Dict)
    → refuse_existing existing records ≡ ok accepted
    → (existing ≡ []) × (records ≡ accepted)
unfolding refuse_existing
refuse_existing-ok [] records accepted h = (refl, cc h)
refuse_existing-ok (k ∷ existing) records accepted h = absurd (cc h)

All-member : (P : Text → Type 0) (l : List Text) → ((k : Text) → member k l ≡ true → P k) → All P l
unfolding member
All-member P [] h = tt
All-member P (x ∷ l) h = (h x (rw (same_refl x)), All-member P l (λ k m. h k (ground (arith, m))))

module _ (spec : TableSpec) where
  member-existing :
      (rows : List StoredRow) (k : Text) (keys : List Text)
      → member k keys ≡ true
      → member k (existing_keys spec rows keys) ≡ member k (map (row_key spec) rows)
  unfolding existing_keys
  member-existing rows k [] h = absurd (unfold member in ground (arith, h))
  member-existing rows k (j ∷ keys) h =
      member-select (λ i. member i (j ∷ keys)) k (map (row_key spec) rows) ∙ rw h (ground arith)

  member-key :
      (f : Dict → Bool) (k : Text) (records : List Dict)
      → member k (map (key spec) (select f records)) ≡ true
      → member k (map (key spec) records) ≡ true
  unfolding member select
  member-key f k [] h = h
  member-key f k (r ∷ records) h = elim (Bool-cases (f r)) [
    | inl g ↦
        let h' : (same (key spec r) k || member k (map (key spec) (select f records))) ≡ true =
          rw g at h in
        ground (arith, h', member-key f k records)
    | inr g ↦
        let h' : member k (map (key spec) (select f records)) ≡ true = rw g at h in
        ground (arith, member-key f k records h')
  ]

  select-has_repeat :
      (f : Dict → Bool) (records : List Dict)
      → has_repeat (map (key spec) records) ≡ false
      → has_repeat (map (key spec) (select f records)) ≡ false
  unfolding has_repeat select
  select-has_repeat f [] h = h
  select-has_repeat f (r ∷ records) h =
      let rest = select-has_repeat f records (ground (arith, h)) in
      elim (Bool-cases (f r)) [
        | inl g ↦ rw g (rw rest (ground (arith, h, member-key f (key spec r) records)))
        | inr g ↦ rw g rest
      ]

  dedup-seen :
      (seen : List Text) (k : Text) (records : List Dict)
      → member k seen ≡ true
      → member k (map (key spec) (dedup spec seen records)) ≡ false
  unfolding dedup member
  dedup-seen seen k [] h = refl
  dedup-seen seen k (r ∷ records) h = elim (Bool-cases (member (key spec r) seen)) [
    | inl old ↦ rw old (dedup-seen seen k records h)
    | inr new ↦ rw new (
        rw (dedup-seen (key spec r ∷ seen) k records (unfold member in ground (arith, h)))
          (elim (Bool-cases (same (key spec r) k)) [
            | inl e ↦
                absurd (let p = (same_iff (key spec r) k).0 e in let n = rw p at new in cc (n, h))
            | inr e ↦ rw e refl
          ]))
  ]

  dedup-has_repeat :
      (seen : List Text) (records : List Dict)
      → has_repeat (map (key spec) (dedup spec seen records)) ≡ false
  unfolding dedup has_repeat
  dedup-has_repeat seen [] = refl
  dedup-has_repeat seen (r ∷ records) = elim (Bool-cases (member (key spec r) seen)) [
    | inl old ↦ rw old (dedup-has_repeat seen records)
    | inr new ↦ rw new (
        rw
          (dedup-seen (key spec r ∷ seen) (key spec r) records
            (unfold member in rw (same_refl (key spec r))))
          (dedup-has_repeat (key spec r ∷ seen) records))
  ]

  -- Records with keys of their own, none of which the table has.
  pub record AreNew (rows : List StoredRow) (records : List Dict) : Type 0 where
    pub no_repeat : has_repeat (map (key spec) records) ≡ false
    pub absent : All (λ k. member k (map (row_key spec) rows) ≡ false) (map (key spec) records)

  check_keys-AreNew :
      (rows : List StoredRow) (records accepted : List Dict)
      → check_keys spec rows records ≡ ok accepted
      → AreNew rows accepted
  unfolding check_keys refuse_existing
  check_keys-AreNew rows records accepted h =
      elim (Bool-cases (has_repeat (map (key spec) records))) [
        | inl twice ↦ absurd (let h' = rw (twice, check_keys) at h in cc h')
        | inr once ↦
            let (nothing, same_records) =
              refuse_existing-ok (existing_keys spec rows (map (key spec) records)) records accepted
                (rw (once, check_keys) at h) in
            rw (← same_records) (record {
              no_repeat = once;
              absent = All-member _ (map (key spec) records) (λ k m.
                  sym (member-existing rows k (map (key spec) records) m)
                  ∙ ap (member k) nothing
                  ∙ unfold member in refl);
            })
      ]

  skip_keys-AreNew :
      (rows : List StoredRow) (records : List Dict) → AreNew rows (skip_keys spec rows records)
  unfolding skip_keys
  skip_keys-AreNew rows records =
      let unique = dedup spec [] records in
      let existing = existing_keys spec rows (map (key spec) unique) in
      record {
        no_repeat =
            select-has_repeat (λ r. not (member (key spec r) existing)) unique
              (dedup-has_repeat [] records);
        absent = All-member _ _ (λ k h.
            sym (
              member-existing rows k (map (key spec) unique)
                (member-key (λ r. not (member (key spec r) existing)) k unique h))
            ∙ selected-absent k existing unique h);
      }
    where
      selected-absent :
          (k : Text) (existing : List Text) (unique : List Dict)
          → member k (map (key spec) (select (λ r. not (member (key spec r) existing)) unique))
            ≡ true
          → member k existing ≡ false
      selected-absent k existing [] h = absurd (unfold select member in ground (arith, h))
      selected-absent k existing (r ∷ unique) h = elim (Bool-cases (member (key spec r) existing)) [
        | inl old ↦ selected-absent k existing unique (rw (old, select) at h)
        | inr new ↦ elim (Bool-cases (same (key spec r) k)) [
          | inl e ↦ let p = (same_iff (key spec r) k).0 e in rw p at new
          | inr e ↦ selected-absent k existing unique (
              let h' : (same (key spec r) k
                    || member k
                        (map (key spec) (select (λ x. not (member (key spec x) existing)) unique)))
                  ≡ true =
                unfold member in rw (new, select) at h in
              rw e at h')
        ]
      ]

  -- The rows that `validate` accepts, in either mode, have keys that differ from each other and from
  -- those of all rows of the table, also the deleted ones.
  pub validate_rows-AreNew :
      (rows : List StoredRow) (skip_existing : Bool) (raw accepted : List Dict)
      → validate_rows spec rows skip_existing raw ≡ ok accepted
      → AreNew rows accepted
  unfolding validate_rows
  validate_rows-AreNew rows skip_existing raw accepted h =
      let (records, _, last) = >>=-eq-ok (normalize_rows (column_names spec) raw) _ h in
      elim (Bool-cases skip_existing) [
        | inl skips ↦
            let e : ok (skip_keys spec rows records) ≡ ok accepted = rw skips at last in
            let q : skip_keys spec rows records ≡ accepted = cc e in
            rw (← q) (skip_keys-AreNew rows records)
        | inr checks ↦ check_keys-AreNew rows records accepted (rw checks at last)
      ]
