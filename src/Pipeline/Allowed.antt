-- ===== src/Pipeline/Allowed.antt =====
-- What a policy lets through, and that no query is compiled around it.
use seekbase.Base.{
  Option, ◌≡◌, refl, ◌↔◌, Text, codes, List, [], ◌∷◌, true, false, none, some, same, member,
  Option-cases, inl, inr, ◌⊎◌, ok, >>=-eq-ok, All, arith,
}
use seekbase.Base.Strip.{has_char}
use seekbase.Value.{Value}
use seekbase.Operator.Base.{Cap, Operator}
use seekbase.Operator.Policy.{Policy, has_cap, hits, misses, mode_caps, is_nil, check}
use seekbase.Operator.Registry.{Registry}
use seekbase.Pipeline.Stage.{
  Cells, Staged, classify, refuse_streaming, stage_operator, stage_sql, stage_segment, stage,
}
use seekbase.Pipeline.Fuse.{Phase}
use seekbase.Pipeline.Query.{compile}

hits-false :
    (caps denied : List Cap) → hits caps denied ≡ false → All (λ c. has_cap c denied ≡ false) caps
unfolding hits
hits-false [] denied h = tt
hits-false (c ∷ caps) denied h = (ground (arith, h), hits-false caps denied (ground (arith, h)))

misses-false :
    (caps granted : List Cap)
    → misses caps granted ≡ false
    → All (λ c. has_cap c granted ≡ true) caps
unfolding misses
misses-false [] granted h = tt
misses-false (c ∷ caps) granted h =
    (ground (arith, h), misses-false caps granted (ground (arith, h)))

-- What an operator is that a policy lets through: it is not denied by name, none of its capabilities
-- is denied, it is on the list of allowed operators if there is one, and its mode grants each of its
-- capabilities.
pub record Permitted (p : Policy) (op : Operator) : Type 0 where
  pub not_denied : member op.name p.deny ≡ false
  pub no_denied_cap : All (λ c. has_cap c p.deny_caps ≡ false) op.caps
  pub allowed : (is_nil p.allow ≡ true) ⊎ (member op.name p.allow ≡ true)
  pub granted : All (λ c. has_cap c (mode_caps p.mode) ≡ true) op.caps

check-Permitted : (p : Policy) (op : Operator) → check p op ≡ ok tt → Permitted p op
unfolding check
check-Permitted p op h = record {
  not_denied = ground (arith, h);
  no_denied_cap = hits-false op.caps p.deny_caps (ground (arith, h));
  allowed = ground (arith, h);
  granted = misses-false op.caps (mode_caps p.mode) (ground (arith, h));
}

hits-All :
    (caps denied : List Cap) → All (λ c. has_cap c denied ≡ false) caps → hits caps denied ≡ false
unfolding hits
hits-All [] denied h = refl
hits-All (c ∷ caps) denied h = rw h.0 (hits-All caps denied h.1)

misses-All :
    (caps granted : List Cap)
    → All (λ c. has_cap c granted ≡ true) caps
    → misses caps granted ≡ false
unfolding misses
misses-All [] granted h = refl
misses-All (c ∷ caps) granted h = rw h.0 (misses-All caps granted h.1)

Permitted-check : (p : Policy) (op : Operator) → Permitted p op → check p op ≡ ok tt
unfolding check
Permitted-check p op h = rw h.not_denied (
    rw (hits-All op.caps p.deny_caps h.no_denied_cap) (
      rw (misses-All op.caps (mode_caps p.mode) h.granted)
        (elim h.allowed [ inl e ↦ rw e | inr e ↦ rw e (ground (arith, e)) ])))

-- The check of a policy passes exactly the permitted operators.
pub check-Permitted_iff : (p : Policy) (op : Operator) → (check p op ≡ ok tt) ↔ Permitted p op
check-Permitted_iff p op = (check-Permitted p op, Permitted-check p op)

-- What a segment is, by its classification: an operator is permitted, is bounded and is not `ingest`;
-- SQL has no semicolon.
pub AdmissibleAs : Policy → Text → Option (Operator × Text) → Type 0
AdmissibleAs p segment none = has_char b';' segment ≡ false
AdmissibleAs p segment (some (op, rest)) =
    Permitted p op × (op.bounded ≡ true) × (same op.name (codes "ingest") ≡ false)

pub Admissible : Policy → Registry → Text → Type 0
Admissible p ops segment = AdmissibleAs p segment (classify ops segment)

module _ {A : Type 0} (cells : Cells A) (p : Policy) (ops : Registry) where
  stage_operator-Permitted :
      (op : Operator) (rest : Text) (staged : Staged A)
      → stage_operator cells p op rest ≡ ok staged
      → Permitted p op × (op.bounded ≡ true) × (same op.name (codes "ingest") ≡ false)
  unfolding stage_operator refuse_streaming
  stage_operator-Permitted op rest staged h =
      let (_, checked, more) = >>=-eq-ok (check p op) _ h in
      let (_, refused, _) = >>=-eq-ok (refuse_streaming cells op) _ more in
      (check-Permitted p op checked, ground (arith, refused), ground (arith, refused))

  stage_segment-Admissible :
      (segment : Text) (staged : Staged A)
      → stage_segment cells p ops segment ≡ ok staged
      → Admissible p ops segment
  unfolding stage_segment stage_sql Admissible AdmissibleAs
  stage_segment-Admissible segment staged h = elim (Option-cases (classify ops segment)) [
    | inl e ↦
        let sql : stage_sql cells segment ≡ ok staged = rw (e, stage_segment) at h in
        rw e (ground (arith, sql))
    | inr ((op, rest), e) ↦
        rw e (stage_operator-Permitted op rest staged (rw (e, stage_segment) at h))
  ]

  stage-Admissible :
      (segments : List Text) (staged : List (Staged A))
      → stage cells p ops segments ≡ ok staged
      → All (Admissible p ops) segments
  unfolding stage
  stage-Admissible [] staged h = tt
  stage-Admissible (segment ∷ segments) staged h =
      let (first, one, more) = >>=-eq-ok (stage_segment cells p ops segment) _ h in
      let (rest, others, _) = >>=-eq-ok (stage cells p ops segments) _ more in
      (stage_segment-Admissible segment first one, stage-Admissible segments rest others)

  -- A query that is compiled has only admissible segments.
  pub compile-Admissible :
      (segments : List Text) (user : List Value) (phases : List Phase)
      → compile cells p ops segments user ≡ ok phases
      → All (Admissible p ops) segments
  unfolding compile
  compile-Admissible segments user phases h =
      let (staged, e, _) = >>=-eq-ok (stage cells p ops segments) _ h in
      stage-Admissible segments staged e
