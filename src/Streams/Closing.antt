-- ===== src/Streams/Closing.antt =====
-- `close`: what it leaves running, with streams that are started while it waits.
use seekbase.Base.{
  ℕ, ◌≤◌, ◌≡◌, sym, ap, ◌∙◌, Text, List, [], ◌∷◌, Bool, true, false, inl, inr, Result, ◌⊎◌,
}
use seekbase.Streams.Table.{Streams, Reached, Close, stopping, raised}

-- A task that a name has is in the list.
Occurs : ℕ → List (Text × ℕ) → Type 0
Occurs id [] = ⊥
Occurs id ((name, j) ∷ hs) = (j ≡ id) ⊎ Occurs id hs

-- What close leaves running was started while it waited.
module _ {ℓ} {A : Type ℓ} (ends : ℕ → Result (Unit {0})) (first : Streams)
    (reached : Reached A first) where
  -- A task that runs is in the rest of the list, or was started since; nothing is said of a call that raised.
  Old : Close → ℕ → Type 0
  Old (stopping hs) id = Occurs id hs
  Old (raised e) id = Unit

  record Kept (c : Close) (s : Streams) : Type 0 where
    since : first.started ≤ s.started
    old : (id : ℕ) → s.running id ≡ true → Old c id ⊎ (first.started ≤ id)

  passed :
      (name : Text) (j id : ℕ) (hs : List (Text × ℕ)) (running : ℕ → Bool)
      → running j ≡ false
      → running id ≡ true
      → Occurs id ((name, j) ∷ hs) ⊎ (first.started ≤ id)
      → Occurs id hs ⊎ (first.started ≤ id)
  unfolding Occurs
  passed name j id hs running off on (inr h) = inr h
  passed name j id hs running off on (inl (inr h)) = inl h
  passed name j id hs running off on (inl (inl e)) =
      absurd (let off' = ap running (sym e) ∙ off in cc (on, off'))
