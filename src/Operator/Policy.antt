-- ===== src/Operator/Policy.antt =====
-- seekbase/operator/policy.py: capability and policy.
use seekbase.Base.{
  Text, codes, List, [], ◌∷◌, Bool, true, false, not, ◌&&◌, ◌||◌, same, member, if◌then◌else◌,
  Result, ok, err, permission_denied,
}
use seekbase.Operator.Base.{Cap, pure, fs_read, fs_write, net, exec, Operator}

unfoldable pub same_cap : Cap → Cap → Bool
same_cap pure pure = true
same_cap fs_read fs_read = true
same_cap fs_write fs_write = true
same_cap net net = true
same_cap exec exec = true
same_cap _ _ = false

unfoldable pub has_cap : Cap → List Cap → Bool
unfolding same_cap
has_cap c [] = false
has_cap c (d ∷ ds) = same_cap d c || has_cap c ds

-- _MODE_CAPS
pub data Mode : Type 0 where
  read_only sandboxed trusted : Mode

abbrev pub mode_caps : Mode → List Cap
mode_caps read_only = pure ∷ fs_read ∷ net ∷ []
mode_caps sandboxed = pure ∷ fs_read ∷ net ∷ exec ∷ fs_write ∷ []
mode_caps trusted = pure ∷ fs_read ∷ fs_write ∷ net ∷ exec ∷ []

pub record Policy : Type 0 where
  pub mode : Mode
  pub allow : List Text
  pub deny : List Text
  pub deny_caps : List Cap

-- __post_init__: the mode that a name means
unfoldable pub mode_of : Text → Result Mode
unfolding same
mode_of name =
    if same name (codes "read-only")
    then ok read_only
    else if same name (codes "sandboxed")
    then ok sandboxed
    else if same name (codes "trusted")
    then ok trusted
    else err permission_denied

-- set(caps) & set(denied) is not empty
unfoldable pub hits : List Cap → List Cap → Bool
unfolding has_cap
hits [] denied = false
hits (c ∷ caps) denied = has_cap c denied || hits caps denied

-- set(caps) - granted is not empty
unfoldable pub misses : List Cap → List Cap → Bool
unfolding has_cap
misses [] granted = false
misses (c ∷ caps) granted = not (has_cap c granted) || misses caps granted

unfoldable pub is_nil : List Text → Bool
is_nil [] = true
is_nil (x ∷ xs) = false

-- Policy.check
unfoldable pub check : Policy → Operator → Result (Unit {0})
unfolding member hits misses is_nil
check p op =
    if member op.name p.deny
    then err permission_denied
    else if hits op.caps p.deny_caps
    then err permission_denied
    else if not (is_nil p.allow) && not (member op.name p.allow)
    then err permission_denied
    else if misses op.caps (mode_caps p.mode)
    then err permission_denied
    else ok tt
