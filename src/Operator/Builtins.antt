-- ===== src/Operator/Builtins.antt =====
-- seekbase/operator/builtins.py: the built-in operators and the arguments that each takes.
use seekbase.Base.{
  ℕ, zero, suc, Text, codes, List, [], ◌∷◌, ◌++◌, Bool, true, false, ◌&&◌, ◌||◌, Option, none, some,
  same, leb, ◌==◌, if◌then◌else◌, Result, ok, err, query_error, ◌>>=◌,
}
use Prim.Native.Nat.{max}
use seekbase.Base.Number.{is_digit, span_digits, value_from}
use seekbase.Base.Strip.{strip}
use seekbase.Operator.Base.{pure, fs_read, exec, Operator, parse_tokens}

abbrev pub duck : Text → ℕ → Operator
duck name arity = record {
  name = name;
  caps = pure ∷ [];
  bounded = true;
  optimize_duck = some arity;
  run_duck = none;
  optimize_bash = false;
  run_bash = false;
  overrides_is_source = none;
}

abbrev pub search_op : Operator
search_op = duck (codes "search") 1

abbrev pub scan_op : Operator
scan_op = duck (codes "scan") 1

abbrev pub grep_op : Operator
grep_op = duck (codes "grep") 2

abbrev pub bash : Text → Operator
bash name = record {
  name = name;
  caps = exec ∷ [];
  bounded = true;
  optimize_duck = none;
  run_duck = none;
  optimize_bash = true;
  run_bash = false;
  overrides_is_source = none;
}

abbrev pub sh_op : Operator
sh_op = bash (codes "sh")

abbrev pub jq_op : Operator
jq_op = bash (codes "jq")

abbrev pub watch_op : Operator
watch_op = record {
  name = codes "watch";
  caps = fs_read ∷ [];
  bounded = false;
  optimize_duck = none;
  run_duck = none;
  optimize_bash = true;
  run_bash = false;
  overrides_is_source = some true;
}

abbrev pub ingest_op : Operator
ingest_op = record {
  name = codes "ingest";
  caps = pure ∷ [];
  bounded = true;
  optimize_duck = none;
  run_duck = none;
  optimize_bash = false;
  run_bash = false;
  overrides_is_source = some false;
}

-- builtin_operators()
abbrev pub builtin_operators : List Operator
builtin_operators = search_op ∷ scan_op ∷ grep_op ∷ sh_op ∷ jq_op ∷ watch_op ∷ ingest_op ∷ []

-- opts.get(k): the last value given for the option
unfoldable pub get_opt : Text → List (Text × Text) → Option Text
get_opt k [] = none
get_opt k ((j, v) ∷ opts) = elim (get_opt k opts) [
  | some w ↦ some w
  | none ↦ if same j k then some v else none
]

-- int(text): digits with an optional sign and white space around; `none` is ValueError. The sign is
-- kept apart, since the callers only ask whether the number is positive or above a bound.
pub data Signed : Type 0 where
  plus : ℕ → Signed
  minus : ℕ → Signed

unfoldable pub all_digits : Text × Text → Option ℕ
unfolding value_from
all_digits ([], rest) = none
all_digits (c ∷ cs, []) = some (value_from 0 (c ∷ cs))
all_digits (c ∷ cs, d ∷ rest) = none

unfoldable pub signed : Bool → Option ℕ → Option Signed
signed negative none = none
signed false (some n) = some (plus n)
signed true (some n) = some (minus n)

unfoldable pub read_signed : Text → Option Signed
unfolding all_digits signed span_digits
read_signed [] = none
read_signed (c ∷ s) =
    if c == b'-'
    then signed true (all_digits (span_digits s))
    else if c == b'+'
    then signed false (all_digits (span_digits s))
    else signed false (all_digits (span_digits (c ∷ s)))

unfoldable pub parse_int : Text → Option Signed
unfolding read_signed strip
parse_int s = read_signed (strip s)

-- `int(opts.get(k, default))`
unfoldable pub int_opt : Text → ℕ → List (Text × Text) → Result Signed
unfolding get_opt parse_int
int_opt k default opts = elim (get_opt k opts) [
  | none ↦ ok (plus default)
  | some s ↦ elim (parse_int s) [ none ↦ err query_error | some n ↦ ok n ]
]

-- max(bound, n), for a natural bound
unfoldable pub at_least : ℕ → Signed → ℕ
at_least bound (plus n) = max bound n
at_least bound (minus n) = bound

pub record SearchArgs : Type 0 where
  pub table : Text
  pub text : Text
  pub col : Option Text
  pub k : ℕ

unfoldable pub positive : Signed → Result ℕ
positive (plus zero) = err query_error
positive (plus (suc n)) = ok (suc n)
positive (minus n) = err query_error

unfoldable pub one_pos : List Text → Result Text
one_pos (t ∷ []) = ok t
one_pos _ = err query_error

unfoldable pub two_pos : List Text → Result (Text × Text)
two_pos (t ∷ u ∷ []) = ok (t, u)
two_pos _ = err query_error

unfoldable pub search_args : List Text → Result SearchArgs
unfolding parse_tokens two_pos int_opt get_opt positive
search_args tokens = do
  parsed ← parse_tokens tokens
  pos ← two_pos parsed.0
  n ← int_opt (codes "k") 100 parsed.1
  k ← positive n
  ok (record { table = pos.0; text = pos.1; col = get_opt (codes "col") parsed.1; k = k })

unfoldable pub scan_args : List Text → Result Text
unfolding parse_tokens one_pos
scan_args tokens = do
  parsed ← parse_tokens tokens
  t ← one_pos parsed.0
  elim parsed.1 [ [] ↦ ok t | _ ∷ _ ↦ err query_error ]

pub record GrepArgs : Type 0 where
  pub pattern' : Text
  pub field : Text

unfoldable pub grep_args : List Text → Result GrepArgs
unfolding parse_tokens one_pos get_opt
grep_args tokens = do
  parsed ← parse_tokens tokens
  p ← one_pos parsed.0
  elim (get_opt (codes "field") parsed.1) [
    | none ↦ err query_error
    | some f ↦ ok (record { pattern' = p; field = f })
  ]

unfoldable pub is_alnum : ℕ → Bool
unfolding is_digit
is_alnum c = is_digit c || leb b'A' c && leb c b'Z' || leb b'a' c && leb c b'z'

-- field.replace("_", "").isalnum()
unfoldable pub field_chars : Text → Bool
unfolding is_alnum
field_chars [] = true
field_chars (c ∷ s) = (c == b'_' || is_alnum c) && field_chars s

unfoldable pub has_alnum : Text → Bool
unfolding is_alnum
has_alnum [] = false
has_alnum (c ∷ s) = is_alnum c || has_alnum s

-- Grep.optimize_duck: the SQL, and its parameters
unfoldable pub grep_sql : Text → GrepArgs → Result (Text × List Text)
unfolding field_chars has_alnum
grep_sql prev args =
    if field_chars args.field && has_alnum args.field
    then ok (
      codes "SELECT * FROM "
          ++ (prev
              ++ (codes " WHERE regexp_matches(CAST(\""
                  ++ (args.field ++ codes "\" AS VARCHAR), ?)"))),
      args.pattern' ∷ [],
    )
    else err query_error

-- Sh.parse_args and Jq.parse_args
unfoldable pub command_args : List Text → Result Text
unfolding one_pos
command_args tokens = one_pos tokens

unfoldable pub sh_argv : Text → List Text
sh_argv command = codes "/bin/sh" ∷ codes "-c" ∷ command ∷ []

unfoldable pub jq_argv : Text → List Text
jq_argv script = codes "jq" ∷ codes "-c" ∷ script ∷ []

pub record WatchArgs : Type 0 where
  pub glob : Text
  pub poll_ms : ℕ

unfoldable pub watch_args : List Text → Result WatchArgs
unfolding parse_tokens one_pos int_opt at_least
watch_args tokens = do
  parsed ← parse_tokens tokens
  g ← one_pos parsed.0
  n ← int_opt (codes "poll-ms") 200 parsed.1
  ok (record { glob = g; poll_ms = at_least 20 n })

pub record IngestArgs : Type 0 where
  pub table : Text
  pub batch : ℕ
  pub flush_ms : ℕ

unfoldable pub ingest_args : List Text → Result IngestArgs
unfolding parse_tokens one_pos int_opt at_least
ingest_args tokens = do
  parsed ← parse_tokens tokens
  t ← one_pos parsed.0
  b ← int_opt (codes "batch") 64 parsed.1
  f ← int_opt (codes "flush-ms") 200 parsed.1
  ok (record { table = t; batch = at_least 1 b; flush_ms = at_least 20 f })
