-- ===== src/MountSecurity/Validate.antt =====
-- What a granted mount satisfies.
use paraclaw.Prelude.{
  ◌≡◌, Bool, true, false, Text, lit, text_eq, includes, starts_with, trim, none, some, List, [],
  ◌∷◌, All, Any, find?, Option-cases, Bool-cases, inl, inr, arith,
}
use paraclaw.MountSecurity.{
  Host, MountAllowlist, AllowedRoot, AdditionalMount, granted, is_valid_container_path,
  matches_blocked_pattern, find_allowed_root, is_under, expand_path, effective_readonly,
  container_path_of, validate_mount,
}
use paraclaw.MountSecurity.Blocked.{matches_blocked_pattern_lem}

-- The container path stays below /workspace/extra and adds no option to a -v argument.
pub record IsSafePath (path : Text) : Type 0 where
  pub no_parent : includes path (lit "..") ≡ false
  pub relative : starts_with path (lit "/") ≡ false
  pub no_colon : includes path (lit ":") ≡ false
  pub some_text : text_eq (trim path) [] ≡ false

is_valid_container_path_sound :
    (path : Text) → is_valid_container_path path ≡ true → IsSafePath path
unfolding is_valid_container_path
is_valid_container_path_sound path h = ground (arith, h)

find?-none : (p : Text → Bool) (xs : List Text) → find? p xs ≡ none → All (λ x. p x ≡ false) xs
find?-none p [] h = tt
find?-none p (x ∷ xs) h = (ground (arith, h), find?-none p xs (ground (arith, h)))

find_root :
    (h : Host) (path : Text) (roots : List AllowedRoot) (root : AllowedRoot)
    → find_allowed_root h path roots ≡ some root
    → (is_under h path root ≡ true) × Any (λ r. r ≡ root) roots
unfolding find_allowed_root
find_root h path [] root e = cc
find_root h path (r ∷ roots) root e = elim (Bool-cases (is_under h path r)) [
  | inl under ↦ let same : r ≡ root = ground (arith, e, under) in (rw (← same) under, inl same)
  | inr outside ↦
      let (under, listed) = find_root h path roots root (ground (arith, e, outside)) in
      (under, inr listed)
]

-- What `validateMount` promises of a mount that it grants.
pub record IsGranted (h : Host) (list : MountAllowlist) (mount : AdditionalMount) (real path : Text)
    (readonly : Bool) : Type 0 where
  pub resolved : h.real_path (expand_path h mount.host_path) ≡ some real
  pub asked : container_path_of h mount ≡ path
  pub safe : IsSafePath path
  pub unblocked : All (λ p. includes real p ≡ false) list.blocked_patterns
  pub root : AllowedRoot
  pub listed : Any (λ r. r ≡ root) list.allowed_roots
  pub under : is_under h real root ≡ true
  pub mode : effective_readonly mount.readonly root ≡ readonly

-- A granted mount is the resolved host path of the request; it contains no blocked pattern and lies
-- under a root of the allowlist; its container path is relative, not blank and free of ".." and
-- ":"; and it is writable only if the request says so and that root allows it.
pub validate_mount-IsGranted :
    (h : Host) (list : MountAllowlist) (mount : AdditionalMount) (real path : Text)
    (readonly : Bool)
    → validate_mount h (some list) mount ≡ granted real path readonly
    → IsGranted h list mount real path readonly
unfolding validate_mount
validate_mount-IsGranted h list mount real path readonly e =
    elim (Bool-cases (is_valid_container_path (container_path_of h mount))) [
      | inr invalid ↦ ground (arith, invalid, e)
      | inl valid ↦ elim (Option-cases (h.real_path (expand_path h mount.host_path))) [
        | inl gone ↦ ground (arith, valid, gone, e)
        | inr (found, resolved) ↦
            elim (Option-cases (matches_blocked_pattern found list.blocked_patterns)) [
              | inr (p, hit) ↦ ground (arith, valid, resolved, hit, e)
              | inl clean ↦ elim (Option-cases (find_allowed_root h found list.allowed_roots)) [
                | inl nowhere ↦ ground (arith, valid, resolved, clean, nowhere, e)
                | inr (root, allowed) ↦
                    let (under, listed) = find_root h found list.allowed_roots root allowed in
                    let same : found ≡ real = ground (arith, valid, resolved, clean, allowed, e) in
                    let path_same : container_path_of h mount ≡ path =
                      ground (arith, valid, resolved, clean, allowed, e) in
                    record {
                      resolved = rw (← same) resolved;
                      asked = path_same;
                      safe =
                          rw (← path_same)
                            (is_valid_container_path_sound (container_path_of h mount) valid);
                      unblocked = rw (← same) (
                          find?-none (includes found) list.blocked_patterns
                            (rw (← matches_blocked_pattern_lem found list.blocked_patterns) clean));
                      root = root;
                      listed = listed;
                      under = rw (← same) under;
                      mode = ground (arith, valid, resolved, clean, allowed, e);
                    }
              ]
            ]
      ]
    ]
