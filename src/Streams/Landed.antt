-- ===== src/Streams/Landed.antt =====
-- What is before a checkpointed offset was landed.
use seekbase.Base.{
  ℕ, ◌+◌, ◌≡◌, refl, ap, ◌∙◌, Text, List, [], ◌∷◌, ◌++◌, Bool, true, false, Option, none, some,
  same, same_iff, same_refl, Result-cases, member, length, leb, ltb, if◌then◌else◌, Bool-cases, inl,
  inr, Result, ok, err, arith,
}
use mathlib.Core.Path.{subst}
use seekbase.Streams.Reader.{Bytes, Offsets, read_file, new_offset, read_new_lines}
use seekbase.Streams.Run.{
  Stream, update, contents, commit, land, land_batch, poll, grow, Follows, fresh, grew, polled,
  killed, unreadable,
}
use seekbase.Streams.Covered.{
  AllIn, Covered, AllIn-right, Covered-zero, Covered-more, Covered-grow, Covered-read_file,
}

AllIn-split : (landed a b : List Bytes) → AllIn landed (a ++ b) → AllIn landed a × AllIn landed b
AllIn-split landed [] b h = (tt, h)
AllIn-split landed (l ∷ a) b h = let rest = AllIn-split landed a b h.1 in ((h.0, rest.0), rest.1)

content_of :
    (readable : Bool) (content c : Bytes)
    → (if readable then some content else none) ≡ some c
    → c ≡ content
content_of true content c e = cc e
content_of false content c e = absurd (cc e)

has_room : (a b : ℕ) → leb b a ≡ false → leb a b ≡ true
has_room a b h = ground (arith, h)

module _ (max_lines : ℕ) (offsets : Offsets) (files : Text → Bytes) (landed lines : List Bytes)
    (path : Text) (before : Covered landed (offsets path) (files path)) where
  abbrev After : List (Text × ℕ) → Type 0
  After new = Covered (landed ++ lines) (update new offsets path) (files path)

  unchanged : After []
  unfolding update
  unchanged = Covered-more landed lines (offsets path) (files path) before

  After-new_offset :
      (have : ℕ) (p : Text) (c : Bytes) (later : List (Text × ℕ))
      → leb have max_lines ≡ true
      → c ≡ files p
      → AllIn lines (read_file max_lines have (offsets p) c).0
      → After later
      → After (new_offset p (offsets p) (read_file max_lines have (offsets p) c).1 later)
  unfolding update
  After-new_offset have p c later room is_c all rest =
      elim (Bool-cases (ltb (offsets p) (read_file max_lines have (offsets p) c).1)) [
        | inr stays ↦ rw stays rest
        | inl moves ↦ elim (Bool-cases (same p path)) [
          | inr other_path ↦ rw moves (rw (update, other_path) rest)
          | inl this_path ↦
              let same_path : p ≡ path = (same_iff p path).0 this_path in
              let same_content : c ≡ files path = is_c ∙ ap files same_path in
              rw moves (
                rw (update, this_path)
                  (rw same_content (
                    rw same_path (
                      Covered-read_file max_lines have landed lines (offsets path) (files path) room
                        (rw (same_path, same_content) at all) before))))
        ]
      ]

  abbrev Step : List Bytes × List (Text × ℕ) → Type 0
  Step r = AllIn lines r.0 → After r.1

  Step-cons :
      (have : ℕ) (p : Text) (o : Option Bytes) (others : List (Text × Option Bytes))
      → ((c : Bytes) → o ≡ some c → c ≡ files p)
      → ((h : ℕ) → Step (read_new_lines max_lines h offsets others))
      → Step (read_new_lines max_lines have offsets ((p, o) ∷ others))
  unfolding read_new_lines
  Step-cons have p none others is_o later all = elim (Bool-cases (leb max_lines have)) [
    | inl full ↦ rw full unchanged
    | inr room ↦ rw room (later have (rw room at all))
  ]
  Step-cons have p (some c) others is_o later all = elim (Bool-cases (leb max_lines have)) [
    | inl full ↦ rw full unchanged
    | inr room ↦
        let reads = read_file max_lines have (offsets p) c in
        let parts =
          AllIn-split lines reads.0
            (read_new_lines max_lines (have + length reads.0) offsets others).0 (rw room at all) in
        rw room (
          After-new_offset have p c
            (read_new_lines max_lines (have + length reads.0) offsets others).1
            (has_room have max_lines room) (is_o c refl) parts.0
            (later (have + length reads.0) parts.1))
  ]

  read_new_lines-After :
      (paths : List (Text × Bool)) (have : ℕ)
      → Step (read_new_lines max_lines have offsets (contents files paths))
  read_new_lines-After [] have = λ all. unfold read_new_lines in unchanged
  read_new_lines-After ((p, readable) ∷ paths) have =
      Step-cons have p (if readable then some (files p) else none) (contents files paths)
        (λ c e. content_of readable (files p) c e) (read_new_lines-After paths)

AllIn-all : (ls : List Bytes) → AllIn ls ls
unfolding member
AllIn-all [] = tt
AllIn-all (l ∷ ls) = (rw (same_refl l) refl, AllIn-right (l ∷ []) ls ls (AllIn-all ls))

abbrev pub AllCovered : Stream → Type 0
AllCovered s = (path : Text) → Covered s.landed (s.offsets path) (s.files path)

commit-AllCovered :
    (max_lines : ℕ) (s : Stream) (paths : List (Text × Bool)) (lines : List Bytes)
    (new : List (Text × ℕ))
    → read_new_lines max_lines 0 s.offsets (contents s.files paths) ≡ (lines, new)
    → AllCovered s
    → AllCovered (commit lines new s)
unfolding commit
commit-AllCovered max_lines s paths lines new reads all path =
    rw reads at
      (read_new_lines-After max_lines s.offsets s.files s.landed lines path (all path) paths 0)
      (AllIn-all lines)

land_batch-AllCovered :
    (max_lines : ℕ) (lands : List Bytes → Result ℕ) (paths : List (Text × Bool)) (s s' : Stream)
    (r : List Bytes × List (Text × ℕ))
    → read_new_lines max_lines 0 s.offsets (contents s.files paths) ≡ r
    → land_batch lands r s ≡ ok s'
    → AllCovered s
    → AllCovered s'
unfolding land_batch
land_batch-AllCovered max_lines lands paths s s' ([], new) reads run all =
    subst (λ r. elim r [ ok t ↦ AllCovered t | err e ↦ Unit ]) run all
land_batch-AllCovered max_lines lands paths s s' (l ∷ lines, new) reads run all =
    elim (Result-cases (lands (l ∷ lines))) [
      | inl (n, e) ↦
          subst (λ r. elim r [ ok t ↦ AllCovered t | err e ↦ Unit ]) (rw e at run)
            (commit-AllCovered max_lines s paths (l ∷ lines) new reads all)
      | inr (x, e) ↦ absurd (cc (rw e at run))
    ]

round-AllCovered :
    (max_lines : ℕ) (lands : List Bytes → Result ℕ) (paths : List (Text × Bool)) (s s' : Stream)
    → poll max_lines lands paths s ≡ ok s'
    → AllCovered s
    → AllCovered s'
unfolding poll
round-AllCovered max_lines lands paths s s' run all =
    land_batch-AllCovered max_lines lands paths s s'
      (read_new_lines max_lines 0 s.offsets (contents s.files paths)) refl run all

grow-AllCovered :
    (s : Stream) (path : Text) (more : Bytes) → AllCovered s → AllCovered (grow path more s)
grow-AllCovered s path more all p = elim (Bool-cases (same path p)) [
  | inr other_path ↦ rw other_path (all p)
  | inl this_path ↦ rw this_path (Covered-grow s.landed (s.offsets p) (s.files p) more (all p))
]

-- At least once: however often a stream is stopped, killed between landing a batch and its checkpoint,
-- or started with an unreadable checkpoint, while the files grow, the bytes of each file before its
-- checkpointed offset are complete lines, and those that are not blank were landed.
pub Follows-AllCovered : (max_lines : ℕ) (s : Stream) → Follows max_lines s → AllCovered s
Follows-AllCovered max_lines _ (fresh files) = λ path. Covered-zero [] (files path)
Follows-AllCovered max_lines _ (grew s path more before) =
    grow-AllCovered s path more (Follows-AllCovered max_lines s before)
Follows-AllCovered max_lines _ (polled s s' chain loads insert paths before run) =
    round-AllCovered max_lines (land chain loads insert) paths s s' run
      (Follows-AllCovered max_lines s before)
Follows-AllCovered max_lines _ (killed s lines before) = λ path.
    Covered-more s.landed lines (s.offsets path) (s.files path)
      (Follows-AllCovered max_lines s before path)
Follows-AllCovered max_lines _ (unreadable s before) = λ path. Covered-zero s.landed (s.files path)
