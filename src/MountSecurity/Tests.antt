-- ===== src/MountSecurity/Tests.antt =====
-- One mount below an allowed root.
use paraclaw.Prelude.{
  ◌≡◌, refl, Bool, true, false, Text, lit, includes, Option, none, some, List, [], ◌∷◌, find?, has,
  ◌++◌,
}
use paraclaw.MountSecurity.{
  Host, AdditionalMount, AllowedRoot, MountAllowlist, granted, validate_mount,
  matches_blocked_pattern, Cache, AllowlistFile, parsed, load_mount_allowlist,
  default_blocked_patterns,
}
use paraclaw.MountSecurity.Validate.{IsGranted, validate_mount-IsGranted}

-- Every path is real, and lies below every root.
abbrev host : Host
host = record {
  home = lit "/home/u";
  join = λ a b. a ++ b;
  resolve = λ p. p;
  relative = λ a b. lit "below";
  is_absolute = λ p. false;
  basename = λ p. lit "data";
  real_path = λ p. some p;
}

abbrev mount : AdditionalMount
mount = record { host_path = lit "/srv/data"; container_path = none; readonly = some false }

abbrev root : AllowedRoot
root = record { path = lit "/srv"; allow_read_write = true }

abbrev list : MountAllowlist
list = record { allowed_roots = root ∷ []; blocked_patterns = lit ".ssh" ∷ [] }

data_is_granted :
    validate_mount host (some list) mount ≡ granted (lit "/srv/data") (lit "data") false
unfolding validate_mount paraclaw.MountSecurity.is_valid_container_path includes
    paraclaw.Prelude.text_eq paraclaw.Prelude.trim matches_blocked_pattern
    paraclaw.MountSecurity.is_blocked_by paraclaw.Prelude.split paraclaw.MountSecurity.expand_path
    paraclaw.MountSecurity.find_allowed_root paraclaw.MountSecurity.is_under
data_is_granted = refl

validate_mount-IsGranted_example : IsGranted host list mount (lit "/srv/data") (lit "data") false
validate_mount-IsGranted_example =
    validate_mount-IsGranted host list mount (lit "/srv/data") (lit "data") false data_is_granted

abbrev cold : Cache
cold = record { cached = none; load_failed = false }

abbrev file : AllowlistFile
file = parsed (some (root ∷ [])) (some (lit "private" ∷ []))
