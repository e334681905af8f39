-- ===== src/MountSecurity.antt =====
-- src/modules/mount-security/index.ts: which additional mounts a container gets. The file system and
-- Node's `path` are parameters (`Host`); the texts of the refusals are constructors of `Reason`.
pub mod Allowlist
pub mod Blocked
pub mod Validate
mod Tests
use paraclaw.Prelude.{
  Bool, true, false, not, ◌&&◌, ◌||◌, Text, lit, text_eq, has, includes, starts_with, split, trim,
  Option, none, some, get_or, List, [], ◌∷◌, ◌++◌, any, find?, if◌then◌else◌, drop,
}
use paraclaw.ContainerDb.{non_empty}

pub record AdditionalMount : Type 0 where
  pub host_path : Text
  pub container_path : Option Text
  pub readonly : Option Bool

pub record AllowedRoot : Type 0 where
  pub path : Text
  pub allow_read_write : Bool

pub record MountAllowlist : Type 0 where
  pub allowed_roots : List AllowedRoot
  pub blocked_patterns : List Text

-- `DEFAULT_BLOCKED_PATTERNS`
abbrev pub default_blocked_patterns : List Text
default_blocked_patterns =
    lit ".ssh"
    ∷ lit ".gnupg"
    ∷ lit ".gpg"
    ∷ lit ".aws"
    ∷ lit ".azure"
    ∷ lit ".gcloud"
    ∷ lit ".kube"
    ∷ lit ".docker"
    ∷ lit "credentials"
    ∷ lit ".env"
    ∷ lit ".netrc"
    ∷ lit ".npmrc"
    ∷ lit ".pypirc"
    ∷ lit "id_rsa"
    ∷ lit "id_ed25519"
    ∷ lit "private_key"
    ∷ lit ".secret"
    ∷ []

-- The file as one read finds it; a field is `none` where it is no array.
pub data AllowlistFile : Type 0 where
  missing : AllowlistFile
  unreadable : AllowlistFile
  parsed : Option (List AllowedRoot) → Option (List Text) → AllowlistFile

-- `cachedAllowlist` and whether `allowlistLoadError` is set
pub record Cache : Type 0 where
  pub cached : Option MountAllowlist
  pub load_failed : Bool

-- `[...new Set(xs)]`: the first occurrences, in order; `seen` holds what came before
dedup_from : List Text → List Text → List Text
dedup_from seen [] = []
dedup_from seen (x ∷ xs) =
    let rest = dedup_from (x ∷ seen) xs in if has seen x then rest else x ∷ rest

unfoldable pub dedup : List Text → List Text
unfolding dedup_from
dedup xs = dedup_from [] xs

abbrev pub merged : List AllowedRoot → List Text → MountAllowlist
merged roots patterns = record {
  allowed_roots = roots;
  blocked_patterns = dedup (default_blocked_patterns ++ patterns);
}

-- what `loadMountAllowlist` does when nothing is cached and no error is noted
unfoldable pub read_allowlist : AllowlistFile → Cache → Cache × Option MountAllowlist
read_allowlist missing c = (c, none)
read_allowlist (parsed (some roots) (some patterns)) c =
    (record c { cached = some (merged roots patterns) }, some (merged roots patterns))
read_allowlist _ c = (record c { load_failed = true }, none)

-- `loadMountAllowlist`
unfoldable pub load_mount_allowlist : AllowlistFile → Cache → Cache × Option MountAllowlist
unfolding read_allowlist
load_mount_allowlist file c = elim c.cached [
  | some list ↦ (c, some list)
  | none ↦ if c.load_failed then (c, none) else read_allowlist file c
]

-- HOME_DIR, `path.join`, `path.resolve`, `path.relative`, `path.isAbsolute`, `path.basename`, and
-- `fs.realpathSync` with `none` where it throws.
pub record Host : Type 0 where
  pub home : Text
  pub join : Text → Text → Text
  pub resolve : Text → Text
  pub relative : Text → Text → Text
  pub is_absolute : Text → Bool
  pub basename : Text → Text
  pub real_path : Text → Option Text

-- `expandPath`
unfoldable pub expand_path : Host → Text → Text
expand_path h p =
    if starts_with p (lit "~/")
    then h.join h.home (drop 2 p)
    else if text_eq p (lit "~")
    then h.home
    else h.resolve p

-- one pattern of the loop in `matchesBlockedPattern`; the separator is '/'
unfoldable pub is_blocked_by : Text → Text → Bool
is_blocked_by path pattern_text =
    any (λ part. text_eq part pattern_text || includes part pattern_text) (split b'/' path)
    || includes path pattern_text

-- `matchesBlockedPattern`
unfoldable pub matches_blocked_pattern : Text → List Text → Option Text
matches_blocked_pattern path patterns = find? (is_blocked_by path) patterns

-- one root of the loop in `findAllowedRoot`
unfoldable pub is_under : Host → Text → AllowedRoot → Bool
is_under h path root = elim (h.real_path (expand_path h root.path)) [
  | none ↦ false
  | some real_root ↦
      not (starts_with (h.relative real_root path) (lit ".."))
      && not (h.is_absolute (h.relative real_root path))
]

-- `findAllowedRoot`
unfoldable pub find_allowed_root : Host → Text → List AllowedRoot → Option AllowedRoot
find_allowed_root h path roots = find? (is_under h path) roots

-- `isValidContainerPath`
unfoldable pub is_valid_container_path : Text → Bool
is_valid_container_path path =
    if includes path (lit "..")
    then false
    else if starts_with path (lit "/")
    then false
    else if text_eq path [] || text_eq (trim path) []
    then false
    else if includes path (lit ":")
    then false
    else true

pub data Reason : Type 0 where
  no_allowlist : Reason
  invalid_container_path : Text → Reason
  no_host_path : Text → Reason
  blocked : Text → Reason
  not_under_root : Text → Reason

-- `MountValidationResult`
pub data MountValidationResult : Type 0 where
  refused : Reason → MountValidationResult
  granted : (real_host_path resolved_container_path : Text) → Bool → MountValidationResult

-- `effectiveReadonly`: read-write is granted if it is asked for and the root allows it
abbrev pub effective_readonly : Option Bool → AllowedRoot → Bool
effective_readonly (some false) root = not root.allow_read_write
effective_readonly _ root = true

-- the checks of `validateMount` from the real path on
validate_real : Host → MountAllowlist → AdditionalMount → Text → Text → MountValidationResult
validate_real h list mount container_path real =
    elim (matches_blocked_pattern real list.blocked_patterns) [
      | some pattern_text ↦ refused (blocked pattern_text)
      | none ↦ elim (find_allowed_root h real list.allowed_roots) [
        | none ↦ refused (not_under_root real)
        | some root ↦ granted real container_path (effective_readonly mount.readonly root)
      ]
    ]

-- `mount.containerPath || path.basename(mount.hostPath)`
abbrev pub container_path_of : Host → AdditionalMount → Text
container_path_of h mount = get_or (non_empty mount.container_path) (h.basename mount.host_path)

-- `validateMount`, on what `loadMountAllowlist` returns
unfoldable pub validate_mount :
    Host → Option MountAllowlist → AdditionalMount → MountValidationResult
unfolding validate_real
validate_mount h none mount = refused no_allowlist
validate_mount h (some list) mount =
    let container_path = container_path_of h mount in
    if not (is_valid_container_path container_path)
    then refused (invalid_container_path container_path)
    else elim (h.real_path (expand_path h mount.host_path)) [
      | none ↦ refused (no_host_path mount.host_path)
      | some real ↦ validate_real h list mount container_path real
    ]

pub record ValidatedMount : Type 0 where
  pub host_path : Text
  pub container_path : Text
  pub readonly : Bool

abbrev keep_granted : MountValidationResult → List ValidatedMount → List ValidatedMount
keep_granted (refused reason) rest = rest
keep_granted (granted real path readonly) rest =
    record {
      host_path = real;
      container_path = lit "/workspace/extra/" ++ path;
      readonly = readonly;
    }
    ∷ rest

-- `validateAdditionalMounts`
unfoldable pub validate_additional_mounts :
    Host → Option MountAllowlist → List AdditionalMount → List ValidatedMount
validate_additional_mounts h list [] = []
validate_additional_mounts h list (mount ∷ mounts) =
    keep_granted (validate_mount h list mount) (validate_additional_mounts h list mounts)
