-- ===== src/Value.antt =====
-- The Python values that rows hold, and a dict of them. The engine reads a value only through `str`,
-- `json.dumps` and the test for None, so every other value is given by its `str`.
use seekbase.Base.{
  ℕ, ◌+◌, Text, codes, List, [], ◌∷◌, ◌++◌, Bool, true, false, Option, none, some, same,
  if◌then◌else◌,
}
use seekbase.Base.Number.{print_nat}

pub data Value : Type 0 where
  null : Value
  text : Text → Value
  number : ℕ → Value
  negative : ℕ → Value
  other_value : Text → Value

-- str(v); `negative n` is -(n + 1)
unfoldable pub str : Value → Text
str null = codes "None"
str (text t) = t
str (number n) = print_nat n
str (negative n) = codes "-" ++ print_nat (n + 1)
str (other_value t) = t

abbrev pub is_null : Value → Bool
is_null null = true
is_null (text t) = false
is_null (number n) = false
is_null (negative n) = false
is_null (other_value t) = false

abbrev pub Dict : Type 0
Dict = List (Text × Value)

-- d.get(k)
unfoldable pub get : Text → Dict → Option Value
get k [] = none
get k ((j, v) ∷ d) = if same j k then some v else get k d

abbrev pub or_null : Option Value → Value
or_null none = null
or_null (some v) = v
