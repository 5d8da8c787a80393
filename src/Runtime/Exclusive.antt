-- ===== src/Runtime/Exclusive.antt =====
-- No two reads have one cursor, and a thread that is free finds one.
use seekbase.Base.{
  ℕ, suc, ◌+◌, ◌≤◌, ◌<◌, ◌≡◌, List, [], ◌∷◌, ◌++◌, length, length-append, ◌==◌, if◌then◌else◌,
  arith,
}
use seekbase.Runtime.Pool.{
  Read, Pool, create, submit, borrow, give_back, Reached, created, submitted, borrowed, given_back,
}

-- How often a cursor is in a list, and how often reads have it.
abbrev pub times : ℕ → List ℕ → ℕ
times c [] = 0
times c (x ∷ xs) = if x == c then suc (times c xs) else times c xs

abbrev pub held : ℕ → List Read → ℕ
held c [] = 0
held c (r ∷ rs) = if r.cursor == c then suc (held c rs) else held c rs

times-append : (c : ℕ) (a b : List ℕ) → times c (a ++ b) ≡ times c a + times c b
times-append c [] b = omega arith
times-append c (x ∷ a) b = ground (arith, times-append c a b)

held-append : (c : ℕ) (a b : List Read) → held c (a ++ b) ≡ held c a + held c b
held-append c [] b = omega arith
held-append c (r ∷ a) b = ground (arith, held-append c a b)

record IsKept (cursors : List ℕ) (p : Pool) : Type 0 where
  each : (c : ℕ) → times c p.free + held c p.running ≡ times c cursors
  all : length p.free + length p.running ≡ length cursors

Reached-IsKept : (cursors : List ℕ) (p : Pool) → Reached cursors p → IsKept cursors p
unfolding create submit borrow give_back
Reached-IsKept cursors _ created = record { each = λ c. omega arith; all = omega arith }
Reached-IsKept cursors _ (submitted p r before) =
    let h = Reached-IsKept cursors p before in record { each = h.each; all = h.all }
Reached-IsKept cursors _ (borrowed p r waiting c free before room next taken) =
    let h = Reached-IsKept cursors p before in
    record {
      each = λ d.
          let e : times d (c ∷ free) + held d p.running ≡ times d cursors =
            rw taken at (h.each d) in
          ground (arith, e);
      all =
          (let a : length (c ∷ free) + length p.running ≡ length cursors = rw taken at h.all in
            omega (arith, a));
    }
Reached-IsKept cursors _ (given_back p before r after reached at) =
    let h = Reached-IsKept cursors p reached in
    record {
      each = λ d.
          let e = rw at at (h.each d) in
          ground (
            arith,
            e,
            times-append d p.free (r.cursor ∷ []),
            held-append d before after,
            held-append d before (r ∷ after),
          );
      all =
          (let a = rw at at h.all in
            omega (
              arith,
              a,
              length-append p.free (r.cursor ∷ []),
              length-append before after,
              length-append before (r ∷ after),
            ));
    }

-- With different cursors: no cursor is with two reads, none is with a read and in the queue as well, and
-- a thread that is free finds a cursor in the queue, so that no read waits for one.
pub Reached-exclusive :
    (cursors : List ℕ) (p : Pool)
    → ((c : ℕ) → times c cursors ≤ 1)
    → Reached cursors p
    → ((c : ℕ) → held c p.running + times c p.free ≤ 1)
      × (length p.running < length cursors → 1 ≤ length p.free)
Reached-exclusive cursors p differ reached =
    let h = Reached-IsKept cursors p reached in
    (λ c. omega (arith, h.each c, differ c), λ room. omega (arith, h.all, room))
