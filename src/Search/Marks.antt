-- ===== src/Search/Marks.antt =====
-- How many placeholders a statement has.
use seekbase.Base.{
  ℕ, zero, suc, ◌+◌, ◌≡◌, refl, ap, ◌∙◌, Text, codes, List, [], ◌∷◌, ◌++◌, map, true, Option, none,
  some, ◌==◌, All, All-append, Bool-cases, inl, inr, if◌then◌else◌, ok, >>=-eq-ok, arith,
}
use seekbase.Base.{OnOk-ok, ◌>>=◌}
use seekbase.Base.Number.{print_nat, print_nat-digits, is_digit}
use seekbase.Schema.Types.{at_end}
use seekbase.Schema.Data.{TableSpec, all_column_names}
use seekbase.Store.Visible.{check_ds, is_ds, asof_conds, end_conds, start_conds, Cond}
use seekbase.Search.Names.{
  concat, join_by, marks, quoted, ident, idents, phys, is_ident, ident_rest, phys_name,
}
use seekbase.Search.Statements.{comma, cond_sql, conds_sql, visible_sql}

-- The question marks of a text.
unfoldable pub count : Text → ℕ
count [] = 0
count (c ∷ s) = if c == b'?' then suc (count s) else count s

-- A text without one.
abbrev pub IsUnmarked : Text → Type 0
IsUnmarked s = count s ≡ 0

pub count-append : (a b : Text) → count (a ++ b) ≡ count a + count b
unfolding count
count-append [] b = omega arith
count-append (c ∷ a) b = ground (arith, count-append a b)

abbrev pub total : List Text → ℕ
total [] = 0
total (p ∷ ps) = count p + total ps

pub count-concat : (ps : List Text) → count (concat ps) ≡ total ps
unfolding concat count
count-concat [] = refl
count-concat (p ∷ ps) = count-append p (concat ps) ∙ ap (λ n. count p + n) (count-concat ps)

pub count-join_by :
    (sep : Text) (ps : List Text) → IsUnmarked sep → All IsUnmarked ps → IsUnmarked (join_by sep ps)
unfolding join_by count
count-join_by sep [] h all = refl
count-join_by sep (p ∷ []) h all = all.0
count-join_by sep (p ∷ q ∷ ps) h all =
    let rest = count-join_by sep (q ∷ ps) h all.1 in
    omega (
      arith,
      count-append p (sep ++ join_by sep (q ∷ ps)),
      count-append sep (join_by sep (q ∷ ps)),
      h,
      all.0,
      rest,
    )

pub count-marks : (n : ℕ) → count (marks n) ≡ n
unfolding marks count
count-marks zero = refl
count-marks (suc zero) = refl
count-marks (suc (suc n)) = ap (λ m. suc m) (count-marks (suc n))

count-digits : (s : Text) → All (λ c. is_digit c ≡ true) s → IsUnmarked s
unfolding count is_digit
count-digits [] h = refl
count-digits (c ∷ s) h = ground (arith, h.0, count-digits s h.1)

pub count-print_nat : (n : ℕ) → IsUnmarked (print_nat n)
count-print_nat n = count-digits (print_nat n) (print_nat-digits n)

count-ident_rest : (s : Text) → ident_rest s ≡ true → IsUnmarked s
unfolding ident_rest count at_end
count-ident_rest [] h = refl
count-ident_rest (c ∷ []) h = ground (arith, h)
count-ident_rest (c ∷ d ∷ s) h = ground (arith, h, count-ident_rest (d ∷ s))

pub count-is_ident : (s : Text) → is_ident s ≡ true → IsUnmarked s
unfolding is_ident count
count-is_ident [] h = refl
count-is_ident (c ∷ s) h = ground (arith, h, count-ident_rest s)

count-quoted : (name : Text) → IsUnmarked name → IsUnmarked (quoted name)
unfolding count
count-quoted name h = omega (arith, count-append name (b'"' ∷ []), h)

-- A name that is accepted has no question mark, and neither has its identifier.
pub count-ident : (name q : Text) → ident name ≡ ok q → IsUnmarked name × IsUnmarked q
unfolding ident
count-ident name q h = elim (Bool-cases (is_ident name)) [
  | inl e ↦
      let clean = count-is_ident name e in
      let p : ok (quoted name) ≡ ok q = rw e at h in
      (clean, OnOk-ok IsUnmarked p (count-quoted name clean))
  | inr e ↦ absurd (cc (rw e at h))
]

pub count-idents : (names qs : List Text) → idents names ≡ ok qs → All IsUnmarked qs
unfolding idents
count-idents [] qs h = OnOk-ok (All IsUnmarked) h tt
count-idents (n ∷ names) qs h =
    let (q, named, rest) = >>=-eq-ok (ident n) (λ q. idents names >>= λ more. ok (q ∷ more)) h in
    let (more, others, all) = >>=-eq-ok (idents names) (λ more. ok (q ∷ more)) rest in
    OnOk-ok (All IsUnmarked) all ((count-ident n q named).1, count-idents names more others)

count-at_end : (s : Text) → at_end s ≡ true → IsUnmarked s
unfolding count at_end
count-at_end [] h = refl
count-at_end (c ∷ []) h = ground (arith, h)
count-at_end (c ∷ d ∷ s) h = absurd (cc h)

count-is_ds : (d : Text) → is_ds d ≡ true → IsUnmarked d
unfolding is_ds is_digit count
count-is_ds [] h = absurd (cc h)
count-is_ds (a ∷ []) h = absurd (cc h)
count-is_ds (a ∷ b ∷ []) h = absurd (cc h)
count-is_ds (a ∷ b ∷ c ∷ []) h = absurd (cc h)
count-is_ds (a ∷ b ∷ c ∷ d ∷ []) h = absurd (cc h)
count-is_ds (a ∷ b ∷ c ∷ d ∷ e ∷ []) h = absurd (cc h)
count-is_ds (a ∷ b ∷ c ∷ d ∷ e ∷ f ∷ []) h = absurd (cc h)
count-is_ds (a ∷ b ∷ c ∷ d ∷ e ∷ f ∷ g ∷ []) h = absurd (cc h)
count-is_ds (a ∷ b ∷ c ∷ d ∷ e ∷ f ∷ g ∷ i ∷ rest) h = ground (arith, h, count-at_end rest)

-- A day that `_check_ds` accepts, or none.
abbrev pub IsDay : Option Text → Type 0
IsDay ds = check_ds ds ≡ ok tt

IsDay-is_ds : (d : Text) → IsDay (some d) → IsUnmarked d
unfolding check_ds
IsDay-is_ds d h = elim (Bool-cases (is_ds d)) [
  | inl e ↦ count-is_ds d e
  | inr e ↦ absurd (cc (rw e at h))
]

count-end_conds : (ds : Option Text) → IsDay ds → All (λ c. IsUnmarked (cond_sql c)) (end_conds ds)
unfolding end_conds cond_sql count
count-end_conds none h = (refl, tt)
count-end_conds (some d) h =
    let free = IsDay-is_ds d h in
    (
      omega (arith, count-append d (codes "'"), free),
      (omega (arith, count-append d (codes "')"), free), tt),
    )

count-start_conds :
    (ds : Option Text) → IsDay ds → All (λ c. IsUnmarked (cond_sql c)) (start_conds ds)
unfolding start_conds cond_sql count
count-start_conds none h = tt
count-start_conds (some d) h = (omega (arith, count-append d (codes "'"), IsDay-is_ds d h), tt)

All-cond_sql :
    (cs : List Cond) → All (λ c. IsUnmarked (cond_sql c)) cs → All IsUnmarked (map cond_sql cs)
All-cond_sql [] h = tt
All-cond_sql (c ∷ cs) h = (h.0, All-cond_sql cs h.1)

module _ (ds_start ds_end : Option Text) (from : IsDay ds_start) (until : IsDay ds_end) where
  pub count-conds_sql : IsUnmarked (conds_sql ds_start ds_end)
  unfolding conds_sql asof_conds
  count-conds_sql =
      count-join_by (codes " AND ") (map cond_sql (asof_conds ds_start ds_end))
        (unfold count in refl)
        (All-cond_sql (asof_conds ds_start ds_end) (
          All-append (λ c. IsUnmarked (cond_sql c)) (end_conds ds_end) (start_conds ds_start)
            (count-end_conds ds_end until) (count-start_conds ds_start from)))

  abbrev view : List Text → Text → Text
  view cols t = concat (
      codes "SELECT "
      ∷ join_by comma cols
      ∷ codes " FROM "
      ∷ t
      ∷ codes " WHERE "
      ∷ conds_sql ds_start ds_end
      ∷ [])

  count-view :
      (cols : List Text) (t : Text) → All IsUnmarked cols → IsUnmarked t → IsUnmarked (view cols t)
  unfolding count
  count-view cols t named clean =
      count-concat (
        codes "SELECT "
        ∷ join_by comma cols
        ∷ codes " FROM "
        ∷ t
        ∷ codes " WHERE "
        ∷ conds_sql ds_start ds_end
        ∷ [])
      ∙ (rw (count-join_by comma cols refl named) (rw clean (rw count-conds_sql refl)))

  -- A view has no placeholder, and neither has the name of its table.
  pub count-visible_sql :
      (spec : TableSpec) (sql : Text)
      → visible_sql spec ds_start ds_end ≡ ok sql
      → IsUnmarked sql × IsUnmarked spec.name
  unfolding visible_sql phys count
  count-visible_sql spec sql h =
      let (cols, named, rest) =
        >>=-eq-ok (idents (all_column_names spec))
          (λ cols. phys spec.name >>= λ t. ok (view cols t)) h in
      let (t, found, end) = >>=-eq-ok (phys spec.name) (λ t. ok (view cols t)) rest in
      let clean = count-ident (phys_name spec.name) t found in
      (
        OnOk-ok IsUnmarked end
            (count-view cols t (count-idents (all_column_names spec) cols named) clean.1),
        clean.0,
      )
