-- ===== src/Json.antt =====
-- What the program relies on of Python's `json` module: a dict is printed on one line that is read back.
use seekbase.Base.{◌≡◌, ◌≢◌, Text, []}
use seekbase.Base.Breaks.{IsLine}
use seekbase.Value.{Dict}

-- json.loads of a line: an object, another value, or a ValueError.
pub data Loaded : Type 0 where
  object : Dict → Loaded
  other_json : Loaded
  malformed : Loaded

-- The line of a dict: `json.dumps` escapes line breaks, an object stands in braces, so stripping it
-- changes nothing, and `json.loads` reads it back.
pub record IsJson (dumps : Dict → Text) (loads : Text → Loaded) (strips : Text → Text) (d : Dict)
    : Type 0 where
  pub one_line : IsLine (dumps d)
  pub some_text : dumps d ≢ []
  pub bare : strips (dumps d) ≡ dumps d
  pub again : loads (dumps d) ≡ object d
