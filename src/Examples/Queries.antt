-- ===== src/Examples/Queries.antt =====
-- Concrete inputs for the theorems on queries: an operator, a segment of SQL, and a bash operator.
use seekbase.Base.{
  false, some, same, member, if◌then◌else◌, ◌≡◌, refl, ◌↔◌, Text, codes, List, [], ◌∷◌, none, All,
  Result, ok, err,
}
use seekbase.Operator.Policy.{Policy, trusted, check}
use seekbase.Operator.Registry.{
  Registry, register, resolve as resolve_op, lower, lower_char, sql_leading_keywords, find_operator,
  add,
}
use seekbase.Operator.Base.{is_source, derived_is_source}
use seekbase.Operator.Lookup.{resolve-register}
use seekbase.Operator.Builtins.{scan_op, grep_op, jq_op}
use seekbase.Pipeline.Split.{split_from}
use seekbase.Pipeline.Stage.{Cells}
use seekbase.Pipeline.Fuse.{Phase}
use seekbase.Pipeline.Query.{compile}
use seekbase.Pipeline.Rejoin.{rejoin, rejoin-split_from}
use seekbase.Pipeline.Allowed.{Permitted, Admissible, check-Permitted_iff, compile-Admissible}
use seekbase.Pipeline.Shape.{IsShaped, compile-IsShaped}
use seekbase.Api.Client.{Request, status}

rejoin-split_from_example :
    rejoin (split_from none (codes "scan 'a|b' | jq .")) ≡ codes "scan 'a|b' | jq ."
rejoin-split_from_example = rejoin-split_from none (codes "scan 'a|b' | jq .")

abbrev policy : Policy
policy = record { mode = trusted; allow = []; deny = codes "sh" ∷ []; deny_caps = [] }

check-Permitted_iff_example : (check policy jq_op ≡ ok tt) ↔ Permitted policy jq_op
check-Permitted_iff_example = check-Permitted_iff policy jq_op

abbrev ops : Registry
ops = (codes "scan", scan_op) ∷ (codes "grep", grep_op) ∷ (codes "jq", jq_op) ∷ []

abbrev cells : Cells Text
cells = record {
  prepare = λ op rest. ok rest;
  lower_source = λ op args. ok (codes "SELECT * FROM docs", []);
  lower_middle = λ op input args. ok (codes "SELECT * FROM _in", []);
  argv = λ op args. codes "jq" ∷ args ∷ [];
}

abbrev segments : List Text
segments = codes "scan docs" ∷ codes "SELECT id FROM _in" ∷ codes "jq ." ∷ []

abbrev result_or_nil : Result (List Phase) → List Phase
result_or_nil (ok l) = l
result_or_nil (err e) = []

abbrev phases : List Phase
phases = result_or_nil (compile cells policy ops segments [])

compiles : compile cells policy ops segments [] ≡ ok phases
unfolding compile
compiles = refl

compile-Admissible_example : All (Admissible policy ops) segments
compile-Admissible_example = compile-Admissible cells policy ops segments [] phases compiles

compile-IsShaped_example : IsShaped phases
compile-IsShaped_example = compile-IsShaped cells policy ops segments [] phases compiles

abbrev request : Request
request = status (codes "r_20240101_ab12")

abbrev more_ops : Registry
more_ops = (codes "scan", scan_op) ∷ []

registers : register grep_op more_ops ≡ ok (add (codes "grep") grep_op more_ops)
unfolding register lower lower_char find_operator is_source derived_is_source same member
registers = refl

resolve-register_example :
    (resolve_op (add (codes "grep") grep_op more_ops) (codes "GREP") ≡ (
      if same (lower grep_op.name) (lower (codes "GREP"))
      then some grep_op
      else resolve_op more_ops (codes "GREP")))
    × (member (lower grep_op.name) sql_leading_keywords ≡ false)
resolve-register_example =
    resolve-register grep_op more_ops (add (codes "grep") grep_op more_ops) (codes "GREP") registers
