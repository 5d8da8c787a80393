-- ===== src/Streams/Lines.antt =====
-- What a poll takes of a file.
use seekbase.Base.{
  ℕ, suc, ◌+◌, ◌≡◌, refl, sym, ap, ◌∙◌, List, [], ◌∷◌, ◌++◌, append_assoc, true, not, ◌||◌, leb,
  length, drop, All, Bool-cases, inl, inr, if◌then◌else◌, arith,
}
use seekbase.Base.Breaks.{Break, single, double, inner, break_at, cons_first}
use seekbase.Streams.Reader.{
  Bytes, splitlines, ends_line, is_blank, passed, not_blank, join, read_file,
}

join-cons_first : (c : ℕ) (ls : List Bytes) → join (cons_first c ls) ≡ c ∷ join ls
unfolding join
join-cons_first c [] = refl
join-cons_first c (l ∷ ls) = refl

join-next :
    (c d : ℕ) (s : Bytes) (b : Break)
    → join (splitlines s) ≡ s
    → join (splitlines (d ∷ s)) ≡ d ∷ s
    → join (elim b [
      | single ↦ (c ∷ []) ∷ splitlines (d ∷ s)
      | double ↦ (c ∷ d ∷ []) ∷ splitlines s
      | inner ↦ cons_first c (splitlines (d ∷ s))
    ])
      ≡ c ∷ d ∷ s
unfolding join
join-next c d s single behind next = ap (λ l. c ∷ l) next
join-next c d s double behind next = ap (λ l. c ∷ d ∷ l) behind
join-next c d s inner behind next = join-cons_first c (splitlines (d ∷ s)) ∙ ap (λ l. c ∷ l) next

join-splitlines : (s : Bytes) → join (splitlines s) ≡ s
unfolding splitlines join
join-splitlines [] = refl
join-splitlines (c ∷ []) = refl
join-splitlines (c ∷ d ∷ s) =
    join-next c d s (break_at c d) (join-splitlines s) (join-splitlines (d ∷ s))

-- The lines that are passed stand at the front, each is complete, and no more are taken than a batch
-- holds.
record Front (max_lines have : ℕ) (raws front : List Bytes) : Type 0 where
  behind : List Bytes
  whole : raws ≡ front ++ behind
  complete : All (λ raw. ends_line raw ≡ true) front
  bounded : leb have max_lines ≡ true → leb (have + length (not_blank front)) max_lines ≡ true

passed-Front :
    (max_lines have : ℕ) (raws : List Bytes)
    → Front max_lines have raws (passed max_lines have raws)
unfolding passed not_blank
passed-Front max_lines have [] = record {
  behind = [];
  whole = refl;
  complete = tt;
  bounded = λ h. ground (arith, h);
}
passed-Front max_lines have (raw ∷ raws) =
    let f = passed-Front max_lines (if is_blank raw then have else suc have) raws in
    elim (Bool-cases (not (ends_line raw) || leb max_lines have)) [
      | inl stop ↦ rw stop (record {
        behind = raw ∷ raws;
        whole = refl;
        complete = tt;
        bounded = λ h. ground (arith, h);
      })
      | inr go ↦ rw go (record {
        behind = f.behind;
        whole = ap (λ l. raw ∷ l) f.whole;
        complete = (ground (arith, go), f.complete);
        bounded = λ h. (elim (Bool-cases (is_blank raw)) [
          | inl blank ↦ rw blank (rw blank at (f.bounded (rw blank h)))
          | inr full ↦
              rw full (ground (arith, rw full at (f.bounded (rw full (ground (arith, go)))), go))
        ]);
      })
    ]

pub join-append : (a b : List Bytes) → join (a ++ b) ≡ join a ++ join b
unfolding join
join-append [] b = refl
join-append (l ∷ a) b = rw (join-append a b) (sym (append_assoc l (join a) (join b)))

-- What a poll takes of a file that it reads from an offset, `have` lines being in the batch already.
-- The bytes behind the offset are those of complete lines, up to the new offset, and a rest; the lines
-- that are taken are those of them that are not blank; and the batch does not grow beyond its bound.
pub read_file-lines :
    (max_lines have start : ℕ) (content : Bytes)
    → leb have max_lines ≡ true
    → (front : List Bytes) × (rest : Bytes) × (drop start content ≡ join front ++ rest)
      × All (λ raw. ends_line raw ≡ true) front
      × (read_file max_lines have start content ≡ (not_blank front, start + length (join front)))
      × (leb (have + length (not_blank front)) max_lines ≡ true)
unfolding read_file
read_file-lines max_lines have start content h =
    let raws = splitlines (drop start content) in
    let f = passed-Front max_lines have raws in
    (
      passed max_lines have raws,
      join f.behind,
      sym (join-splitlines (drop start content))
          ∙ (ap join f.whole ∙ join-append (passed max_lines have raws) f.behind),
      f.complete,
      refl,
      f.bounded h,
    )
