-- ===== src/Base/Keyed.antt =====
-- Lists of things that have a key: the first with a key, and what inserting one changes.
use mathlib.Core.Path.{◌≡◌, refl, ap, ◌∙◌}
use mathlib.Core.Logic.{◌⊎◌, ◌↔◌, inl, inr}
use mathlib.Core.Bool.{false}
use mathlib.Core.Option
use mathlib.Core.Option.{Option, none, some}
use mathlib.Core.List.{List, [], ◌∷◌, ◌++◌, map}
use native.Mathlib.Omega.{arith}
use seekbase.Base.Tests.{if◌then◌else◌, Bool-cases}
use seekbase.Base.Texts.{Text, same, same_iff, same_refl, member}

module _ {ℓ} {A : Type ℓ} where
  unfoldable pub find_by : (A → Text) → Text → List A → Option A
  find_by key k [] = none
  find_by key k (x ∷ xs) = if same (key x) k then some x else find_by key k xs

  -- No two things have one key.
  abbrev pub Distinct : (A → Text) → List A → Type ℓ
  Distinct key [] = Unit
  Distinct key (x ∷ xs) = (find_by key (key x) xs ≡ none) × Distinct key xs

  find_by-insert_ne :
      (key : A → Text) (k : Text) (x : A) (xs ys : List A)
      → same (key x) k ≡ false
      → find_by key k (xs ++ x ∷ ys) ≡ find_by key k (xs ++ ys)
  unfolding find_by
  find_by-insert_ne key k x [] ys h = rw h
  find_by-insert_ne key k x (y ∷ xs) ys h = rw (find_by-insert_ne key k x xs ys h)

  -- No other thing has the key of `x`.
  abbrev pub IsFree : (A → Text) → A → List A → Type ℓ
  IsFree key x xs = (find_by key (key x) xs ≡ none) ⊎ (find_by key (key x) xs ≡ some x)

  find_by-insert_eq :
      (key : A → Text) (x : A) (xs ys : List A)
      → IsFree key x (xs ++ ys)
      → find_by key (key x) (xs ++ x ∷ ys) ≡ some x
  unfolding find_by
  find_by-insert_eq key x [] ys h = rw (same_refl (key x))
  find_by-insert_eq key x (y ∷ xs) ys h = elim (Bool-cases (same (key y) (key x))) [
    | inl e ↦ ground (arith, h, e)
    | inr e ↦ ground (arith, h, e, find_by-insert_eq key x xs ys)
  ]

  -- A thing put anywhere into the list is found, and nothing else is found otherwise.
  pub find_by-insert :
      (key : A → Text) (k : Text) (x : A) (xs ys : List A)
      → IsFree key x (xs ++ ys)
      → find_by key k (xs ++ x ∷ ys) ≡ (if same (key x) k then some x else find_by key k (xs ++ ys))
  find_by-insert key k x xs ys h = elim (Bool-cases (same (key x) k)) [
    | inl e ↦ rw e (rw (← (same_iff (key x) k).0 e) (find_by-insert_eq key x xs ys h))
    | inr e ↦ rw e (find_by-insert_ne key k x xs ys e)
  ]

  pub Distinct-insert :
      (key : A → Text) (x : A) (xs ys : List A)
      → Distinct key (xs ++ ys)
      → find_by key (key x) (xs ++ ys) ≡ none
      → Distinct key (xs ++ x ∷ ys)
  unfolding find_by
  Distinct-insert key x [] ys d h = (h, d)
  Distinct-insert key x (y ∷ xs) ys d h = elim (Bool-cases (same (key y) (key x))) [
    | inl e ↦ absurd (ground (arith, h, e))
    | inr e ↦
        let h' : find_by key (key x) (xs ++ ys) ≡ none = rw e at h in
        (
          find_by-insert_ne key (key y) x xs ys
                (ground (arith, e, same_iff (key x) (key y), same_iff (key y) (key x)))
              ∙ d.0,
          Distinct-insert key x xs ys d.1 h',
        )
  ]

  pub find_by-none_iff :
      (key : A → Text) (k : Text) (xs : List A)
      → (find_by key k xs ≡ none) ↔ (member k (map key xs) ≡ false)
  unfolding find_by member
  find_by-none_iff key k [] = (λ _. refl, λ _. refl)
  find_by-none_iff key k (x ∷ xs) =
      let ih = find_by-none_iff key k xs in (λ h. ground (arith, ih), λ h. ground (arith, ih))

  -- Replacing each thing by one with its key.
  pub find_by-map :
      (key : A → Text) (f : A → A)
      → ((x : A) → key (f x) ≡ key x)
      → (k : Text) (xs : List A) → find_by key k (map f xs) ≡ Option.map f (find_by key k xs)
  unfolding find_by
  find_by-map key f keeps k [] = refl
  find_by-map key f keeps k (x ∷ xs) = elim (Bool-cases (same (key x) k)) [
    | inl e ↦ rw (keeps x) (rw e)
    | inr e ↦ rw (keeps x) (rw e (find_by-map key f keeps k xs))
  ]

  pub Distinct-map :
      (key : A → Text) (f : A → A)
      → ((x : A) → key (f x) ≡ key x)
      → (xs : List A) → Distinct key xs
      → Distinct key (map f xs)
  Distinct-map key f keeps [] d = tt
  Distinct-map key f keeps (x ∷ xs) d = (
    rw (keeps x) (find_by-map key f keeps (key x) xs ∙ ap (Option.map f) d.0),
    Distinct-map key f keeps xs d.1,
  )

  -- What is found has the key, and is a member.
  pub find_by-key :
      (key : A → Text) (k : Text) (xs : List A) (x : A) → find_by key k xs ≡ some x → key x ≡ k
  unfolding find_by
  find_by-key key k [] x h = absurd (ground arith)
  find_by-key key k (y ∷ xs) x h = ground (arith, same_iff (key y) k, find_by-key key k xs x)
