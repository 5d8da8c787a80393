-- ===== src/Files/Stands.antt =====
-- The files as text hold the lines of the mirror.
use seekbase.Base.{
  ◌≡◌, ◌≢◌, refl, sym, ap, ◌∙◌, Text, List, [], ◌∷◌, ◌++◌, append_assoc, append-nil, map, All, same,
  text_le, if◌then◌else◌, Bool-cases, inl, inr,
}
use mathlib.Core.List.{map-append}
use seekbase.Base.Strip.{strip}
use seekbase.Base.Breaks.{lines, lines-line}
use seekbase.Value.{Dict}
use seekbase.Json.{Loaded, object, IsJson}
use seekbase.Files.Mirror.{Mirror, Partition, append, append_all, events_of, iter_events}
use seekbase.Files.Disk.{
  Disk, Folder, write_file, new_folder, append_text, printed, append_lines, event_of, read_record,
  records_of, read_file, read_events,
}

-- The text of a table's file.
unfoldable pub text_of : (Dict → Text) → Text → List (Text × Dict) → Text
unfolding printed
text_of dumps name [] = []
text_of dumps name ((n, line) ∷ ls) =
    let rest = text_of dumps name ls in if same n name then printed dumps line ++ rest else rest

module _ (dumps : Dict → Text) where
  abbrev IsFolder : Folder → Partition → Type 0
  IsFolder f p = (f.ds ≡ p.ds) × ((n : Text) → f.file n ≡ text_of dumps n p.lines)

  -- The directories are those of the mirror, and every file has the lines of its table.
  abbrev pub Stands : Disk → Mirror → Type 0
  Stands [] [] = Unit
  Stands [] (p ∷ ps) = ⊥
  Stands (f ∷ fs) [] = ⊥
  Stands (f ∷ fs) (p ∷ ps) = IsFolder f p × Stands fs ps

  text_of-append :
      (n name : Text) (line : Dict) (ls : List (Text × Dict))
      → text_of dumps n (ls ++ (name, line) ∷ [])
        ≡ (if same name n then text_of dumps n ls ++ printed dumps line else text_of dumps n ls)
  unfolding text_of
  text_of-append n name line [] = elim (Bool-cases (same name n)) [
    | inl e ↦ rw e (append-nil (printed dumps line))
    | inr e ↦ rw e
  ]
  text_of-append n name line ((m, l) ∷ ls) = elim (Bool-cases (same name n)) [
    | inl e ↦ elim (Bool-cases (same m n)) [
      | inl e' ↦
          rw (e, e')
            (rw (text_of-append n name line ls) (
              rw e
                (sym (append_assoc (printed dumps l) (text_of dumps n ls) (printed dumps line)))))
      | inr e' ↦ rw (e, e') (rw (text_of-append n name line ls) (rw e))
    ]
    | inr e ↦ elim (Bool-cases (same m n)) [
      | inl e' ↦ rw (e, e') (rw (text_of-append n name line ls) (rw e))
      | inr e' ↦ rw (e, e') (rw (text_of-append n name line ls) (rw e))
    ]
  ]

  write_file-IsFolder :
      (name : Text) (line : Dict) (f : Folder) (p : Partition)
      → IsFolder f p
      → IsFolder
          (write_file name (printed dumps line) f)
          (record p { lines = p.lines ++ (name, line) ∷ [] })
  write_file-IsFolder name line f p h =
      (h.0, λ n. rw (h.1 n) (sym (text_of-append n name line p.lines)))

  new_folder-IsFolder :
      (ds name : Text) (line : Dict)
      → IsFolder
          (write_file name (printed dumps line) (new_folder ds))
          (record { ds = ds; lines = (name, line) ∷ [] })
  new_folder-IsFolder ds name line =
      write_file-IsFolder name line (new_folder ds) (record { ds = ds; lines = [] })
        (refl, λ n. unfold text_of in refl)

  append_text-Stands :
      (ds name : Text) (line : Dict) (disk : Disk) (mirror : Mirror)
      → Stands disk mirror
      → Stands (append_text ds name (printed dumps line) disk) (append ds name line mirror)
  unfolding append_text append
  append_text-Stands ds name line [] [] h = (new_folder-IsFolder ds name line, tt)
  append_text-Stands ds name line [] (p ∷ ps) h = absurd h
  append_text-Stands ds name line (f ∷ fs) [] h = absurd h
  append_text-Stands ds name line (f ∷ fs) (p ∷ ps) h = elim (Bool-cases (same f.ds ds)) [
    | inl e ↦ rw e (rw (rw h.0.0 at e) (write_file-IsFolder name line f p h.0, h.1))
    | inr e ↦ elim (Bool-cases (text_le ds f.ds)) [
      | inl l ↦ rw (e, l) (rw (rw h.0.0 at e, rw h.0.0 at l) (new_folder-IsFolder ds name line, h))
      | inr l ↦
          rw (e, l)
            (rw (rw h.0.0 at e, rw h.0.0 at l) (h.0, append_text-Stands ds name line fs ps h.1))
    ]
  ]

  -- Printing lines behind the files is appending them to the mirror.
  pub append_lines-Stands :
      (ds name : Text) (ls : List Dict) (disk : Disk) (mirror : Mirror)
      → Stands disk mirror
      → Stands (append_lines dumps ds name ls disk) (append_all ds name ls mirror)
  unfolding append_lines append_all
  append_lines-Stands ds name [] disk mirror h = h
  append_lines-Stands ds name (line ∷ ls) disk mirror h =
      append_lines-Stands ds name ls (append_text ds name (printed dumps line) disk)
        (append ds name line mirror) (append_text-Stands ds name line disk mirror h)

  module _ (loads : Text → Loaded) where
    -- Every line of the mirror is printed on one line that is read back.
    abbrev pub AllJson : Mirror → Type 0
    AllJson = All λ p. All (λ l. IsJson dumps loads strip l.1) p.lines

    read_record-dumps :
        (s : Text) (d : Dict) → s ≢ [] → loads s ≡ object d → read_record loads s ≡ object d ∷ []
    unfolding read_record event_of
    read_record-dumps [] d some_text h = absurd (some_text refl)
    read_record-dumps (c ∷ s) d some_text h = rw h

    -- A printed line at the front of a text is its first record.
    records_of-printed :
        (d : Dict) (tail : Text)
        → IsJson dumps loads strip d
        → records_of loads (lines (printed dumps d ++ tail))
          ≡ object d ∷ records_of loads (lines tail)
    unfolding records_of printed
    records_of-printed d tail h = rw append_assoc (
        rw (lines-line (dumps d) tail h.one_line)
          (rw (records_of, h.bare) (rw (read_record-dumps (dumps d) d h.some_text h.again))))

    abbrev pub read_back : List (Text × Dict) → List (Text × Loaded)
    read_back = map λ e. (e.0, object e.1)

    abbrev pub at_ds : Text → List Loaded → List (Text × Loaded)
    at_ds ds = map λ r. (ds, r)

    -- What is read of a file's text with something behind it.
    pub records_of-text_of :
        (n ds : Text) (ls : List (Text × Dict)) (tail : Text)
        → All (λ l. IsJson dumps loads strip l.1) ls
        → at_ds ds (records_of loads (lines (text_of dumps n ls ++ tail)))
          ≡ read_back (events_of n ds ls) ++ at_ds ds (records_of loads (lines tail))
    unfolding text_of events_of
    records_of-text_of n ds [] tail h = refl
    records_of-text_of n ds ((m, line) ∷ ls) tail h = elim (Bool-cases (same m n)) [
      | inl e ↦ rw e (
          rw (append_assoc (printed dumps line) (text_of dumps n ls) tail) (
            rw (records_of-printed line (text_of dumps n ls ++ tail) h.0)
              (rw (records_of-text_of n ds ls tail h.1))))
      | inr e ↦ rw e (records_of-text_of n ds ls tail h.1)
    ]

    whole_file :
        (name : Text) (p : Partition)
        → All (λ l. IsJson dumps loads strip l.1) p.lines
        → at_ds p.ds (records_of loads (lines (text_of dumps name p.lines)))
          ≡ read_back (events_of name p.ds p.lines)
    unfolding records_of lines
    whole_file name p json =
        rw (append-nil (text_of dumps name p.lines)) at
          (records_of-text_of name p.ds p.lines [] json)
        ∙ append-nil (read_back (events_of name p.ds p.lines))

    -- Reading the files gives the events of the mirror.
    pub read_events-Stands :
        (name : Text) (disk : Disk) (mirror : Mirror)
        → Stands disk mirror
        → AllJson mirror
        → read_events loads name disk ≡ read_back (iter_events name mirror)
    unfolding read_events iter_events read_file
    read_events-Stands name [] [] h json = refl
    read_events-Stands name [] (p ∷ ps) h json = absurd h
    read_events-Stands name (f ∷ fs) [] h json = absurd h
    read_events-Stands name (f ∷ fs) (p ∷ ps) h json =
        rw (h.0.0, h.0.1 name)
          (rw (read_events-Stands name fs ps h.1 json.1) (
            ap (λ l. l ++ read_back (iter_events name ps)) (whole_file name p json.0)
            ∙ sym (
                map-append (λ e. (e.0, object e.1)) (events_of name p.ds p.lines)
                  (iter_events name ps))))
