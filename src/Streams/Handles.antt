-- ===== src/Streams/Handles.antt =====
-- The running streams are those that the dict of handles has.
use seekbase.Base.{
  ℕ, ◌≡◌, refl, sym, ap, ◌∙◌, Text, List, [], ◌∷◌, Bool, true, false, some, same, same_refl,
  same_iff, Bool-cases, inl, inr, if◌then◌else◌, Result, ok, >>=-eq-ok, ◌⊎◌, arith,
}
use mathlib.Core.Path.{subst}
use seekbase.Streams.Table.{
  Streams, handle, set_handle, is_running, mark, add_handle, start_stream, Reached, opened, start,
  ended,
}

-- Every running task is the one that some name has.
abbrev pub AllHandled : Streams → Type 0
AllHandled s = (id : ℕ) → s.running id ≡ true → (name : Text) × (handle name s.handles ≡ some id)

pub mark-false : (id j : ℕ) (running : ℕ → Bool) → mark id false running j ≡ true → running j ≡ true
mark-false id j running h = ground (arith, h)

if_twice :
    {A : Type 0} (b : Bool) (x y z : A)
    → (if b then x else z) ≡ (if b then x else if b then y else z)
if_twice true x y z = refl
if_twice false x y z = refl

-- At most one of the two tests holds.
if_swap :
    {A : Type 0} (b c : Bool) (x y z : A)
    → (b ≡ true → c ≡ false)
    → (if b then x else if c then y else z) ≡ (if c then y else if b then x else z)
if_swap true true x y z h = absurd (cc (h refl))
if_swap true false x y z h = refl
if_swap false c x y z h = refl

same-other : (n name t : Text) → same n name ≡ false → same n t ≡ true → same name t ≡ false
same-other n name t e h = elim (Bool-cases (same name t)) [
  | inr differ ↦ differ
  | inl same_name ↦
      let both : n ≡ name = (same_iff n t).0 h ∙ sym ((same_iff name t).0 same_name) in
      absurd (let both' = (same_iff n name).1 both in cc (e, both'))
]

handle-set_handle :
    (hs : List (Text × ℕ)) (name other_name : Text) (new : ℕ)
    → handle other_name (set_handle name new hs)
      ≡ (if same name other_name then some new else handle other_name hs)
unfolding handle set_handle
handle-set_handle [] name other_name new = refl
handle-set_handle ((n, j) ∷ hs) name other_name new = elim (Bool-cases (same n name)) [
  | inl e ↦
      (let own : n ≡ name = (same_iff n name).0 e in
        rw (e, own) (if_twice (same name other_name) (some new) (some j) (handle other_name hs)))
  | inr e ↦
      rw (e, handle-set_handle hs name other_name new)
        (if_swap (same n other_name) (same name other_name) (some j) (some new)
          (handle other_name hs) (same-other n name other_name e))
]

pub mark-true :
    (id j : ℕ) (running : ℕ → Bool) → mark id true running j ≡ true → (id ≡ j) ⊎ (running j ≡ true)
mark-true id j running h = ground (arith, h)

not_busy :
    (name m : Text) (s : Streams) (id : ℕ)
    → is_running s.running (handle name s.handles) ≡ false
    → s.running id ≡ true
    → handle m s.handles ≡ some id
    → same name m ≡ false
not_busy name m s id free old hm = elim (Bool-cases (same name m)) [
  | inr differ ↦ differ
  | inl same_name ↦
      let e : handle name s.handles ≡ some id =
        ap (λ n. handle n s.handles) ((same_iff name m).0 same_name) ∙ hm in
      absurd (let free' = rw e at free in cc (free', old))
]

add_handle-AllHandled :
    (name : Text) (s : Streams)
    → is_running s.running (handle name s.handles) ≡ false
    → AllHandled s
    → AllHandled (add_handle name s)
add_handle-AllHandled name s free all id h = elim (mark-true s.started id s.running h) [
  | inl e ↦ (name, rw (handle-set_handle s.handles name name s.started, same_refl name) (ap some e))
  | inr old ↦
      let (m, hm) = all id old in
      let differ = not_busy name m s id free old hm in
      (m, rw (handle-set_handle s.handles name m s.started, differ) hm)
]

-- A start finds the name free, and the state that it leaves.
pub started_state {ℓ} :
    {A : Type ℓ} (compiled : Result A) (name : Text) (s s' : Streams)
    → start_stream compiled name s ≡ ok s'
    → (is_running s.running (handle name s.handles) ≡ false) × (add_handle name s ≡ s')
unfolding start_stream
started_state compiled name s s' h =
    elim (Bool-cases (is_running s.running (handle name s.handles))) [
      | inl busy ↦ absurd (let h' = rw busy at h in cc h')
      | inr free ↦
          let h' = rw free at h in
          let (a, _, e) = >>=-eq-ok compiled (λ _. ok (add_handle name s)) h' in (free, cc)
    ]

-- A stream is started: the tasks that were running keep their names.
start-AllHandled {ℓ} :
    {A : Type ℓ} (compiled : Result A) (name : Text) (s s' : Streams)
    → start_stream compiled name s ≡ ok s'
    → AllHandled s
    → AllHandled s'
start-AllHandled compiled name s s' h all =
    let (free, e) = started_state compiled name s s' h in
    subst AllHandled e (add_handle-AllHandled name s free all)

pub Reached-AllHandled {ℓ} : {A : Type ℓ} (s : Streams) → Reached A s → AllHandled s
Reached-AllHandled s opened = λ id h. absurd (cc h)
Reached-AllHandled _ (start s s' compiled name reached h) =
    start-AllHandled compiled name s s' h (Reached-AllHandled s reached)
Reached-AllHandled _ (ended s id reached) =
    λ j h. Reached-AllHandled s reached j (mark-false id j s.running h)
