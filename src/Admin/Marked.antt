-- ===== src/Admin/Marked.antt =====
-- The tombstones that one delete brings into the mirror.
use seekbase.Base.{
  ◌≡◌, refl, ◌∙◌, Text, List, [], ◌∷◌, ◌++◌, map, true, false, none, some, same, same_iff,
  same_refl, member, if◌then◌else◌, Bool-cases, inl, inr, ◌⊎◌, arith,
}
use seekbase.Base.Keyed.{find_by, IsFree, find_by-insert}
use seekbase.Value.{Value, text, Dict, str}
use seekbase.Files.Mirror.{Mirror, append, append_all, delete_line, iter_events}
use seekbase.Files.Append.{iter_events-append, iter_events-append_ne}
use seekbase.Admin.Replay.{puts, tombstones, Tombstone}
use seekbase.Admin.Synced.{tomb_key, puts-delete, tombstones-append, tombstones-delete}
use seekbase.Admin.Lines.{delete_line-tombstone, tombstone_of-delete_line}

pub iter_events-append_all_ne :
    (ds name n : Text) (lines : List Dict) (mirror : Mirror)
    → same name n ≡ false
    → iter_events n (append_all ds name lines mirror) ≡ iter_events n mirror
unfolding append_all
iter_events-append_all_ne ds name n [] mirror h = refl
iter_events-append_all_ne ds name n (line ∷ lines) mirror h =
    iter_events-append_all_ne ds name n lines (append ds name line mirror) h
    ∙ iter_events-append_ne ds name n line mirror h

module _ (ds now name : Text) where
  abbrev pub tomb : Text → Tombstone
  tomb k = record { key = k; ds = ds; at = text now }

  abbrev pub events : Mirror → List (Text × Dict)
  events mirror = iter_events name mirror

  abbrev pub marked : List Value → Mirror → Mirror
  marked keys mirror = append_all ds name (map (delete_line now) keys) mirror

  puts-append_delete :
      (k : Value) (mirror : Mirror)
      → puts (events (append ds name (delete_line now k) mirror)) ≡ puts (events mirror)
  puts-append_delete k mirror =
      let i = iter_events-append ds name (delete_line now k) mirror in
      rw i.new_eq (
        rw i.old_eq
          (puts-delete ds (delete_line now k) i.before i.after (delete_line-tombstone now k)))

  pub puts-marked :
      (keys : List Value) (mirror : Mirror)
      → puts (events (marked keys mirror)) ≡ puts (events mirror)
  unfolding append_all
  puts-marked [] mirror = refl
  puts-marked (k ∷ keys) mirror =
      puts-marked keys (append ds name (delete_line now k) mirror) ∙ puts-append_delete k mirror

  -- No tombstone of the key yet, or one that is the same.
  abbrev pub Open : Text → Mirror → Type 0
  Open j mirror =
      (find_by tomb_key j (tombstones (events mirror)) ≡ none)
      ⊎ (find_by tomb_key j (tombstones (events mirror)) ≡ some (tomb j))

  find-append_delete :
      (j : Text) (k : Value) (mirror : Mirror)
      → Open (str k) mirror
      → find_by tomb_key j (tombstones (events (append ds name (delete_line now k) mirror))) ≡ (
          if same (str k) j
          then some (tomb (str k))
          else find_by tomb_key j (tombstones (events mirror)))
  find-append_delete j k mirror open' =
      let i = iter_events-append ds name (delete_line now k) mirror in
      let free : IsFree tomb_key (tomb (str k)) (tombstones i.before ++ tombstones i.after) =
        rw (i.old_eq, tombstones-append i.before i.after) at open' in
      rw i.new_eq (
        rw (tombstones-delete ds (delete_line now k) i.before i.after (delete_line-tombstone now k))
          (rw (tombstone_of-delete_line ds now k) (
            rw i.old_eq (
              rw (tombstones-append i.before i.after) (
                find_by-insert tomb_key j (tomb (str k)) (tombstones i.before) (tombstones i.after)
                  free)))))

  Open-append_delete :
      (i : Text) (k : Value) (mirror : Mirror)
      → Open (str k) mirror
      → Open i mirror
      → Open i (append ds name (delete_line now k) mirror)
  Open-append_delete i k mirror open_k open_i = elim (Bool-cases (same (str k) i)) [
    | inl e ↦ inr (find-append_delete i k mirror open_k ∙ rw e (rw ((same_iff (str k) i).0 e)))
    | inr e ↦ rw (find-append_delete i k mirror open_k) (rw e open_i)
  ]

  pub find-marked :
      (j : Text) (keys : List Value) (mirror : Mirror)
      → ((i : Text) → member i (map str keys) ≡ true → Open i mirror)
      → find_by tomb_key j (tombstones (events (marked keys mirror))) ≡ (
          if member j (map str keys)
          then some (tomb j)
          else find_by tomb_key j (tombstones (events mirror)))
  unfolding append_all member
  find-marked j [] mirror open' = refl
  find-marked j (k ∷ keys) mirror open' =
      let open_k = open' (str k) (rw (same_refl (str k))) in
      let first = find-append_delete j k mirror open_k in
      let rest =
        find-marked j keys (append ds name (delete_line now k) mirror)
          (λ i h. Open-append_delete i k mirror open_k (open' i (ground (arith, h)))) in
      rest
      ∙ rw first (elim (Bool-cases (same (str k) j)) [
        | inl e ↦ rw e (rw ((same_iff (str k) j).0 e) (ground arith))
        | inr e ↦ rw e
      ])
