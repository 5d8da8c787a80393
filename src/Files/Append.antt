-- ===== src/Files/Append.antt =====
-- What one appended line changes in the events that are read back.
use seekbase.Base.{
  ◌≡◌, refl, sym, Text, List, [], ◌∷◌, ◌++◌, append_assoc, append-nil, false, same, same_iff,
  same_refl, text_le, Bool-cases, inl, inr,
}
use seekbase.Value.{Dict}
use seekbase.Files.Mirror.{Mirror, append, events_of, iter_events}

-- `new` is `old` with `x` put somewhere into it.
pub record Inserted {A : Type 0} (x : A) (old new : List A) : Type 0 where
  pub before : List A
  pub after : List A
  pub old_eq : old ≡ before ++ after
  pub new_eq : new ≡ before ++ x ∷ after

events_of-append :
    (name ds : Text) (xs ys : List (Text × Dict))
    → events_of name ds (xs ++ ys) ≡ events_of name ds xs ++ events_of name ds ys
unfolding events_of
events_of-append name ds [] ys = refl
events_of-append name ds ((n, line) ∷ xs) ys = elim (Bool-cases (same n name)) [
  | inl e ↦ rw e (rw (events_of-append name ds xs ys))
  | inr e ↦ rw e (events_of-append name ds xs ys)
]

events_of-one :
    (name ds : Text) (line : Dict) → events_of name ds ((name, line) ∷ []) ≡ (ds, line) ∷ []
unfolding events_of
events_of-one name ds line = rw (same_refl name)

-- The events of the table that is written to: the line comes in, in its partition.
pub iter_events-append :
    (ds name : Text) (line : Dict) (mirror : Mirror)
    → Inserted (ds, line) (iter_events name mirror) (iter_events name (append ds name line mirror))
unfolding iter_events append
iter_events-append ds name line [] = record {
  before = [];
  after = [];
  old_eq = refl;
  new_eq = rw (events_of-one name ds line);
}
iter_events-append ds name line (p ∷ ps) = elim (Bool-cases (same p.ds ds)) [
  | inl e ↦ record {
    before = events_of name p.ds p.lines;
    after = iter_events name ps;
    old_eq = refl;
    new_eq = rw e (
        rw (events_of-append name p.ds p.lines ((name, line) ∷ []))
          (rw (events_of-one name p.ds line, append_assoc, (same_iff p.ds ds).0 e)));
  }
  | inr e ↦ elim (Bool-cases (text_le ds p.ds)) [
    | inl l ↦ record {
      before = [];
      after = iter_events name (p ∷ ps);
      old_eq = refl;
      new_eq = rw e (rw l (rw (events_of-one name ds line)));
    }
    | inr l ↦
        let deeper = iter_events-append ds name line ps in
        record {
          before = events_of name p.ds p.lines ++ deeper.before;
          after = deeper.after;
          old_eq =
              rw deeper.old_eq
                (sym (append_assoc (events_of name p.ds p.lines) deeper.before deeper.after));
          new_eq = rw e (
              rw l (
                rw deeper.new_eq (
                  sym (
                    append_assoc (events_of name p.ds p.lines) deeper.before
                      ((ds, line) ∷ deeper.after)))));
        }
  ]
]

-- The events of another table stay.
pub iter_events-append_ne :
    (ds name n : Text) (line : Dict) (mirror : Mirror)
    → same name n ≡ false
    → iter_events n (append ds name line mirror) ≡ iter_events n mirror
unfolding iter_events append events_of
iter_events-append_ne ds name n line [] h = rw h
iter_events-append_ne ds name n line (p ∷ ps) h = elim (Bool-cases (same p.ds ds)) [
  | inl e ↦ rw e (rw (events_of-append n p.ds p.lines ((name, line) ∷ [])) (rw (h, append-nil)))
  | inr e ↦ elim (Bool-cases (text_le ds p.ds)) [
    | inl l ↦ rw e (rw l (rw h))
    | inr l ↦ rw e (rw l (rw (iter_events-append_ne ds name n line ps h)))
  ]
]
