-- ===== src/Pipeline/Shape.antt =====
-- The shape of a compiled query: its phases, and the user's parameters that they take.
use seekbase.Base.{
  ◌≡◌, refl, ap, Text, List, [], ◌∷◌, map, Bool, true, false, not, Result, ok, >>=-eq-ok, arith,
}
use seekbase.Value.{Value}
use seekbase.Operator.Base.{Operator}
use seekbase.Operator.Policy.{Policy}
use seekbase.Operator.Registry.{Registry}
use seekbase.Pipeline.Stage.{Cells, Staged, duck_op, duck_sql, bash_op, stage}
use seekbase.Pipeline.Fuse.{
  DuckItem, op_item, sql_item, Run, duck_run, bash_run, Phase, duck, bash, add_duck, add_bash,
  group, fuse_duck_run, fuse_items, phases_from, all_used, bash_phase,
}
use seekbase.Pipeline.Query.{compile}

-- Neighbours in the list differ.
pub Alternating : List Bool → Type 0
Alternating [] = Unit
Alternating (k ∷ []) = Unit
Alternating (k ∷ l ∷ kinds) = (k ≡ not l) × Alternating (l ∷ kinds)

pub StartsTrue : List Bool → Type 0
StartsTrue [] = Unit
StartsTrue (k ∷ kinds) = k ≡ true

module _ {A : Type 0} where
  abbrev is_duck : Run A → Bool
  is_duck (duck_run d ds) = true
  is_duck (bash_run b bs) = false

  add_duck-Alternating :
      (d : DuckItem A) (runs : List (Run A))
      → Alternating (map is_duck runs)
      → Alternating (map is_duck (add_duck d runs))
  unfolding add_duck Alternating
  add_duck-Alternating d [] h = tt
  add_duck-Alternating d (duck_run e ds ∷ runs) h = h
  add_duck-Alternating d (bash_run b bs ∷ runs) h = (refl, h)

  add_bash-Alternating :
      (b : Operator × A) (runs : List (Run A))
      → Alternating (map is_duck runs)
      → Alternating (map is_duck (add_bash b runs))
  unfolding add_bash Alternating
  add_bash-Alternating b [] h = tt
  add_bash-Alternating b (bash_run c bs ∷ runs) h = h
  add_bash-Alternating b (duck_run d ds ∷ runs) h = (refl, h)

  group-Alternating : (staged : List (Staged A)) → Alternating (map is_duck (group staged))
  unfolding group Alternating
  group-Alternating [] = tt
  group-Alternating (duck_op op args ∷ staged) =
      add_duck-Alternating (op_item op args) (group staged) (group-Alternating staged)
  group-Alternating (duck_sql sql ∷ staged) =
      add_duck-Alternating (sql_item sql) (group staged) (group-Alternating staged)
  group-Alternating (bash_op op args ∷ staged) =
      add_bash-Alternating (op, args) (group staged) (group-Alternating staged)

abbrev pub is_duck_phase : Phase → Bool
is_duck_phase (duck sql params) = true
is_duck_phase (bash argvs) = false

-- The phases begin in the database, and no two neighbours are of one kind.
pub record IsShaped (phases : List Phase) : Type 0 where
  pub starts : StartsTrue (map is_duck_phase phases)
  pub alternates : Alternating (map is_duck_phase phases)

ok-phases :
    (ps qs : List Phase) (us vs : List Value)
    → (let a : Result (List Phase × List Value) = ok (ps, us) in a) ≡ ok (qs, vs)
    → qs ≡ ps
ok-phases ps qs us vs h = cc h

module _ {A : Type 0} (cells : Cells A) where
  fuse-is_duck :
      (d : DuckItem A) (ds : List (DuckItem A)) (user left : List Value) (started : Bool)
      (p : Phase)
      → fuse_duck_run cells d ds user started ≡ ok (p, left)
      → is_duck_phase p ≡ true
  unfolding fuse_duck_run
  fuse-is_duck d ds user left started p h =
      let (fused, _, e) = >>=-eq-ok (fuse_items cells 0 _ (d ∷ ds) user) _ h in ground (arith, e)

  -- The phases are of the kinds of the runs.
  phases_from-kinds :
      (started : Bool) (runs : List (Run A)) (user left : List Value) (phases : List Phase)
      → phases_from cells started runs user ≡ ok (phases, left)
      → map is_duck_phase phases ≡ map is_duck runs
  unfolding phases_from bash_phase
  phases_from-kinds started [] user left phases h = rw (ok-phases [] phases user left h)
  phases_from-kinds false (bash_run b bs ∷ runs) user left phases h = absurd (cc h)
  phases_from-kinds true (bash_run b bs ∷ runs) user left phases h =
      let (rest, e, last) = >>=-eq-ok (phases_from cells true runs user) _ h in
      rw (ok-phases (bash_phase cells b bs ∷ rest.0) phases rest.1 left last)
        (ap (λ l. false ∷ l) (phases_from-kinds true runs user rest.1 rest.0 e))
  phases_from-kinds started (duck_run d ds ∷ runs) user left phases h =
      let (first, one, more) = >>=-eq-ok (fuse_duck_run cells d ds user started) _ h in
      let (rest, e, last) = >>=-eq-ok (phases_from cells true runs first.1) _ more in
      rw (ok-phases (first.0 ∷ rest.0) phases rest.1 left last) (
        rw (fuse-is_duck d ds user first.1 started first.0 one)
          (ap (λ l. true ∷ l) (phases_from-kinds true runs first.1 rest.1 rest.0 e)))

  phases_from-starts :
      (runs : List (Run A)) (user left : List Value) (phases : List Phase)
      → phases_from cells false runs user ≡ ok (phases, left)
      → StartsTrue (map is_duck runs)
  unfolding phases_from StartsTrue
  phases_from-starts [] user left phases h = tt
  phases_from-starts (bash_run b bs ∷ runs) user left phases h = absurd (cc h)
  phases_from-starts (duck_run d ds ∷ runs) user left phases h = refl

  all_used-ok :
      (phases : List Phase) (found : List Phase × List Value)
      → all_used cells found ≡ ok phases
      → found ≡ (phases, [])
  unfolding all_used
  all_used-ok phases (ps, []) h = let e : ps ≡ phases = cc h in rw e
  all_used-ok phases (ps, v ∷ left) h = absurd (cc h)

  -- The phases of a query that is compiled begin in the database, and database and bash take turns.
  pub compile-IsShaped :
      (policy : Policy) (ops : Registry) (segments : List Text) (user : List Value)
      (phases : List Phase)
      → compile cells policy ops segments user ≡ ok phases
      → IsShaped phases
  unfolding compile
  compile-IsShaped policy ops segments user phases h =
      let (staged, _, more) = >>=-eq-ok (stage cells policy ops segments) _ h in
      let (found, e, last) = >>=-eq-ok (phases_from cells false (group staged) user) _ more in
      let e' = rw (all_used-ok phases found last) at e in
      let kinds = phases_from-kinds false (group staged) user [] phases e' in
      record {
        starts = rw kinds (phases_from-starts (group staged) user [] phases e');
        alternates = rw kinds (group-Alternating staged);
      }
