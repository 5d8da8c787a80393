-- ===== src/Files/Torn.antt =====
-- A file whose last line was torn by a crash, and the next append to it.
use seekbase.Base.{ℕ, Option, none, some, ◌≡◌, Text, List, ◌++◌}
use seekbase.Base.Strip.{strip}
use seekbase.Base.Breaks.{IsLine}
use seekbase.Value.{Dict}
use seekbase.Json.{Loaded, malformed}

abbrev pub append_decoded : Option Text → Text → Option Text
append_decoded none t = none
append_decoded (some s) t = some (s ++ t)

module _ (dumps : Dict → Text) (loads : Text → Loaded) where
  -- What a crash leaves of a line: some characters that are not JSON.
  pub record IsTorn (torn : Text) : Type 0 where
    pub one_line : IsLine torn
    pub refused : loads (strip torn) ≡ malformed

  -- Appended bytes decode behind those that decode, and bytes that do not decode are not repaired by
  -- them, since the first byte of a character continues no other.
  abbrev pub IsCodec : (Text → List ℕ) → (List ℕ → Option Text) → Type 0
  IsCodec encode decode =
      (b : List ℕ) (t : Text) → decode (b ++ encode t) ≡ append_decoded (decode b) t
