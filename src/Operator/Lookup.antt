-- ===== src/Operator/Lookup.antt =====
-- What is found in a registry behind a registration.
use seekbase.Base.{
  ◌≡◌, refl, sym, Error, query_error, Text, [], ◌∷◌, Bool, true, false, Option, none, some, is_some,
  same, same_iff, member, Bool-cases, inl, inr, if◌then◌else◌, Result, ok, err, >>=-eq-ok,
}
use seekbase.Operator.Base.{Operator, is_source}
use seekbase.Operator.Registry.{
  Registry, lower, sql_leading_keywords, find_operator, add, register, resolve,
}

find_operator-add :
    (k name : Text) (op : Operator) (ops : Registry)
    → find_operator name ops ≡ none
    → find_operator k (add name op ops) ≡ (if same name k then some op else find_operator k ops)
unfolding find_operator add
find_operator-add k name op [] free = refl
find_operator-add k name op ((n, o) ∷ ops) free = elim (Bool-cases (same n name)) [
  | inl e ↦ absurd (let found : some o ≡ none = rw e at free in cc found)
  | inr ne ↦
      let rest = find_operator-add k name op ops (rw ne at free) in
      elim (Bool-cases (same n k)) [
        | inl here ↦ rw here (elim (Bool-cases (same name k)) [
          | inl e ↦
              absurd
                (let p = (same_iff name k).0 e in let here' = rw (← p) at here in cc (here', ne))
          | inr other ↦ rw other refl
        ])
        | inr away ↦ rw away rest
      ]
]

guard-eq-ok :
    {A : Type 0} (b : Bool) (x : Error) (m : Result A) {a : A}
    → (if b then err x else m) ≡ ok a
    → (b ≡ false) × (m ≡ ok a)
guard-eq-ok true x m h = absurd (cc h)
guard-eq-ok false x m h = (refl, h)

is_some-false : {A : Type 0} (o : Option A) → is_some o ≡ false → o ≡ none
is_some-false none h = refl
is_some-false (some a) h = absurd (cc h)

register-eq-ok :
    (op : Operator) (ops ops' : Registry)
    → register op ops ≡ ok ops'
    → (find_operator (lower op.name) ops ≡ none)
      × (member (lower op.name) sql_leading_keywords ≡ false)
      × (ops' ≡ add (lower op.name) op ops)
unfolding register
register-eq-ok op ops ops' h =
    let (_, named) = guard-eq-ok (same (lower op.name) []) query_error _ h in
    let (no_keyword, allowed) =
      guard-eq-ok (member (lower op.name) sql_leading_keywords) query_error _ named in
    let (new, last) =
      guard-eq-ok (is_some (find_operator (lower op.name) ops)) query_error _ allowed in
    let (source, _, e) = >>=-eq-ok (is_source op) _ last in
    let added : add (lower op.name) op ops ≡ ops' = cc e in
    (is_some-false (find_operator (lower op.name) ops) new, no_keyword, sym added)

-- Behind a registration that succeeds, a token is resolved to the new operator if it is its name but
-- for the case of the letters, and to what it was resolved to before otherwise; and the name is no
-- leading keyword of SQL.
pub resolve-register :
    (op : Operator) (ops ops' : Registry) (token : Text)
    → register op ops ≡ ok ops'
    → (resolve ops' token
        ≡ (if same (lower op.name) (lower token) then some op else resolve ops token))
      × (member (lower op.name) sql_leading_keywords ≡ false)
unfolding resolve
resolve-register op ops ops' token h =
    let (free, no_keyword, e) = register-eq-ok op ops ops' h in
    (rw e (find_operator-add (lower token) (lower op.name) op ops free), no_keyword)
