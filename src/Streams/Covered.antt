-- ===== src/Streams/Covered.antt =====
-- What it is for the bytes before an offset of a file to have been landed.
use seekbase.Base.{
  ℕ, ◌≡◌, refl, sym, ap, ◌∙◌, List, [], ◌∷◌, ◌++◌, append_assoc, true, member, length, drop, leb,
  All, All-append, Bool-cases, inl, inr, length-append, arith,
}
use seekbase.Streams.Reader.{Bytes, join, ends_line, not_blank, read_file, is_blank}
use seekbase.Streams.Lines.{read_file-lines, join-append}

abbrev pub AllIn : List Bytes → List Bytes → Type 0
AllIn landed = All λ l. member l landed ≡ true

-- The bytes of a file before an offset are complete lines, of which those that are not blank are in
-- `landed`.
pub record Covered (landed : List Bytes) (offset : ℕ) (content : Bytes) : Type 0 where
  pub before : List Bytes
  pub rest : Bytes
  pub whole : content ≡ join before ++ rest
  pub at : offset ≡ length (join before)
  pub complete : All (λ raw. ends_line raw ≡ true) before
  pub taken : AllIn landed (not_blank before)

member-left : (l : Bytes) (a b : List Bytes) → member l a ≡ true → member l (a ++ b) ≡ true
unfolding member
member-left l [] b h = absurd (ground (arith, h))
member-left l (x ∷ a) b h = ground (arith, h, member-left l a b)

member-right : (l : Bytes) (a b : List Bytes) → member l b ≡ true → member l (a ++ b) ≡ true
unfolding member
member-right l [] b h = h
member-right l (x ∷ a) b h = rw (member-right l a b h) (ground arith)

AllIn-left : (a b ls : List Bytes) → AllIn a ls → AllIn (a ++ b) ls
AllIn-left a b [] h = tt
AllIn-left a b (l ∷ ls) h = (member-left l a b h.0, AllIn-left a b ls h.1)

pub AllIn-right : (a b ls : List Bytes) → AllIn b ls → AllIn (a ++ b) ls
AllIn-right a b [] h = tt
AllIn-right a b (l ∷ ls) h = (member-right l a b h.0, AllIn-right a b ls h.1)

pub not_blank-append : (a b : List Bytes) → not_blank (a ++ b) ≡ not_blank a ++ not_blank b
unfolding not_blank
not_blank-append [] b = refl
not_blank-append (l ∷ a) b = elim (Bool-cases (is_blank l)) [
  | inl e ↦ rw e (not_blank-append a b)
  | inr e ↦ rw e (rw (not_blank-append a b))
]

drop-append : (a b : Bytes) → drop (length a) (a ++ b) ≡ b
drop-append [] b = refl
drop-append (c ∷ a) b = drop-append a b

pub Covered-zero : (landed : List Bytes) (content : Bytes) → Covered landed 0 content
Covered-zero landed content = record {
  before = [];
  rest = content;
  whole = unfold join in refl;
  at = unfold join in refl;
  complete = tt;
  taken = unfold not_blank in tt;
}

pub Covered-more :
    (landed more : List Bytes) (offset : ℕ) (content : Bytes)
    → Covered landed offset content
    → Covered (landed ++ more) offset content
Covered-more landed more offset content c = record {
  before = c.before;
  rest = c.rest;
  whole = c.whole;
  at = c.at;
  complete = c.complete;
  taken = AllIn-left landed more (not_blank c.before) c.taken;
}

pub Covered-grow :
    (landed : List Bytes) (offset : ℕ) (content more : Bytes)
    → Covered landed offset content
    → Covered landed offset (content ++ more)
Covered-grow landed offset content more c = record {
  before = c.before;
  rest = c.rest ++ more;
  whole = ap (λ l. l ++ more) c.whole ∙ append_assoc (join c.before) c.rest more;
  at = c.at;
  complete = c.complete;
  taken = c.taken;
}

-- A file that is covered is so up to the offset behind what was taken of it.
pub Covered-read_file :
    (max_lines have : ℕ) (landed lines : List Bytes) (offset : ℕ) (content : Bytes)
    → leb have max_lines ≡ true
    → AllIn lines (read_file max_lines have offset content).0
    → Covered landed offset content
    → Covered (landed ++ lines) (read_file max_lines have offset content).1 content
Covered-read_file max_lines have landed lines offset content room all c =
    let (front, rest, split, complete, reads, bounded) =
      read_file-lines max_lines have offset content room in
    let behind : drop offset content ≡ c.rest =
      ap (λ n. drop n content) c.at
      ∙ (ap (drop (length (join c.before))) c.whole ∙ drop-append (join c.before) c.rest) in
    record {
      before = c.before ++ front;
      rest = rest;
      whole =
          c.whole
          ∙ (ap (λ l. join c.before ++ l) (sym behind ∙ split)
              ∙ sym (
                  ap (λ l. l ++ rest) (join-append c.before front)
                  ∙ append_assoc (join c.before) (join front) rest));
      at =
          ap (λ r. r.1) reads
          ∙ (rw (join-append c.before front)
              (omega (arith, length-append (join c.before) (join front), c.at)));
      complete = All-append (λ raw. ends_line raw ≡ true) c.before front c.complete complete;
      taken = rw (not_blank-append c.before front) (
          All-append (λ l. member l (landed ++ lines) ≡ true) (not_blank c.before) (not_blank front)
            (AllIn-left landed lines (not_blank c.before) c.taken)
            (AllIn-right landed lines (not_blank front) (rw reads at all)));
    }
