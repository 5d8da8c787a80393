-- ===== src/Tasks/Wait.antt =====
-- `Seekbase.wait`: polling a task until it settles.
use seekbase.Base.{
  ℕ, zero, suc, ◌+◌, ◌≤◌, ◌<◌, ◌≡◌, ◌≢◌, ◌⊎◌, refl, sym, ap, ◌∙◌, Text, codes, List, [], ◌∷◌, Bool,
  true, false, not, Bool-cases, Option, none, some, same, member, length, take, All, if◌then◌else◌,
  Result, ok, err, inl, inr, arith,
}
use seekbase.Tasks.Record.{Task}
use seekbase.Tasks.Log.{Log, status}
use seekbase.Tasks.Drive.{Ending, Moment, drive, new_task, append_lines, pending}
use seekbase.Tasks.Life.{
  IsDated, IsLineOf, is_settled, settles, last_of, last_of-IsLineOf, last_of-settles,
  status-last_of, drive-IsLineOf,
}

-- st.state not in ("pending", "running"); an exception of `task_status` ends the loop too.
unfoldable pub is_final : Result Task → Bool
unfolding member
is_final (err e) = true
is_final (ok t) = not (member t.state (codes "pending" ∷ codes "running" ∷ []))

-- `polls n` is what poll `n` gives; `none` if `fuel` polls did not end the loop.
unfoldable pub wait : (ℕ → Result Task) → ℕ → ℕ → Option (Result Task)
unfolding is_final
wait polls zero n = none
wait polls (suc fuel) n =
    let later = wait polls fuel (suc n) in if is_final (polls n) then some (polls n) else later

le_cases : (n k : ℕ) → n ≤ k → (n ≡ k) ⊎ (suc n ≤ k)
le_cases n k h = ground (arith, h)

not_yet-final :
    (polls : ℕ → Result Task) (n k : ℕ)
    → is_final (polls n) ≡ false
    → is_final (polls k) ≡ true
    → n ≤ k
    → suc n ≤ k
not_yet-final polls n k not_yet h n≤k = elim (le_cases n k n≤k) [
  | inl e ↦ absurd (cc (sym h ∙ (ap (λ m. is_final (polls m)) (sym e) ∙ not_yet)))
  | inr less ↦ less
]

wait-from :
    (polls : ℕ → Result Task) (fuel n k : ℕ)
    → n ≤ k
    → k < n + fuel
    → is_final (polls k) ≡ true
    → (j : ℕ) × (is_final (polls j) ≡ true) × (wait polls fuel n ≡ some (polls j))
unfolding wait
wait-from polls zero n k n≤k k<n h = absurd (omega (arith, n≤k, k<n))
wait-from polls (suc fuel) n k n≤k k<n h = elim (Bool-cases (is_final (polls n))) [
  | inl now ↦ (n, now, rw now)
  | inr not_yet ↦
      let less = not_yet-final polls n k not_yet h n≤k in
      let (j, final, e) = wait-from polls fuel (suc n) k less (omega (arith, k<n)) h in
      (j, final, rw not_yet e)
]

take-all : {A : Type 0} (n : ℕ) (xs : List A) → length xs ≤ n → take n xs ≡ xs
take-all zero [] h = refl
take-all zero (x ∷ xs) h = absurd (omega (arith, h))
take-all (suc n) [] h = refl
take-all (suc n) (x ∷ xs) h = ap (λ l. x ∷ l) (take-all n xs (omega (arith, h)))

All-take : {A : Type 0} (P : A → Type 0) (n : ℕ) (xs : List A) → All P xs → All P (take n xs)
All-take P zero xs h = tt
All-take P (suc n) [] h = tt
All-take P (suc n) (x ∷ xs) h = (h.0, All-take P n xs h.1)

not-not : (b : Bool) → not (not b) ≡ b
not-not true = refl
not-not false = refl

is_final-settled : (id : Text) (t : Task) → IsLineOf id t → is_final (ok t) ≡ is_settled t.state
unfolding is_final
is_final-settled id t h = ap not h.1 ∙ not-not (is_settled t.state)

-- Poll `n` comes when `seen n` lines of the wrapper are in the log.
abbrev pub poll : Text → Task → List Task → Log → (ℕ → ℕ) → ℕ → Result Task
poll id t lines log seen n = status id (append_lines (t ∷ take (seen n) lines) log)

-- A submitted task, with an id that has a date in it, of which a line `done`, `failed` or `cancelled` is
-- written, is polled while its lines come into the log, in whatever tempo. If the log has all of them at
-- poll `k`, then wait returns by that poll, without an exception, and the task that it returns is done,
-- failed or cancelled.
pub wait-settles :
    (id op : Text) (query : Option Text) (born ts : Text) (ending : Ending) (moment : Moment)
    (log : Log) (seen : ℕ → ℕ) (k : ℕ)
    → IsDated id
    → id ≢ []
    → settles ending moment ≡ true
    → length (drive ts false (new_task id op pending query born) ending moment) ≤ seen k
    → (t : Task) × (wait
          (poll id
            (new_task id op pending query born)
            (drive ts false (new_task id op pending query born) ending moment)
            log
            seen)
          (suc k)
          0
        ≡ some (ok t))
      × (is_settled t.state ≡ true)
wait-settles id op query born ts ending moment log seen k dated ne ends enough =
    let t = new_task id op pending query born in
    let lines = drive ts false t ending moment in
    let polls = poll id t lines log seen in
    let own : IsLineOf id t = (refl, unfold member same in refl) in
    let all : (n : ℕ) → All (IsLineOf id) (take (seen n) lines) =
      λ n. All-take (IsLineOf id) (seen n) lines (drive-IsLineOf ts t ending moment) in
    let found : (n : ℕ) → polls n ≡ ok (last_of t (take (seen n) lines)) =
      λ n. status-last_of id t (take (seen n) lines) log own (all n) dated ne in
    let judged : (n : ℕ) → is_final (polls n) ≡ is_settled (last_of t (take (seen n) lines)).state =
      λ n.
        ap is_final (found n)
        ∙ is_final-settled id (last_of t (take (seen n) lines))
            (last_of-IsLineOf id t (take (seen n) lines) own (all n)) in
    let last : is_settled (last_of t (take (seen k) lines)).state ≡ true =
      ap (λ l. is_settled (last_of t l).state) (take-all (seen k) lines enough)
      ∙ (last_of-settles ts t ending moment refl ∙ ends) in
    let (j, final, e) = wait-from polls (suc k) 0 k (omega arith) (omega arith) (judged k ∙ last) in
    (last_of t (take (seen j) lines), e ∙ ap some (found j), sym (judged j) ∙ final)
