-- ===== src/MountSecurity/Allowlist.antt =====
-- The merged patterns and the cache of `loadMountAllowlist`.
use mathlib.Core.Path.{subst}
use paraclaw.Prelude.{
  ◌≡◌, refl, Bool, true, false, ◌||◌, Text, text_eq_iff, has, none, some, List, [], ◌∷◌, ◌++◌,
  arith, Bool-cases, Option-cases, inl, inr, ◌⊎◌, ◌∙◌, ap, sym,
}
use paraclaw.MountSecurity.{
  MountAllowlist, AllowedRoot, AllowlistFile, missing, unreadable, parsed, Cache, dedup, dedup_from,
  default_blocked_patterns, merged, load_mount_allowlist, read_allowlist,
}

has-dedup_from :
    (seen xs : List Text) (t : Text)
    → has (dedup_from seen xs) t || has seen t ≡ has xs t || has seen t
unfolding dedup_from
has-dedup_from seen [] t = refl
has-dedup_from seen (x ∷ xs) t = ground (arith, has-dedup_from (x ∷ seen) xs t, text_eq_iff x t)

or_false : (b : Bool) → (b || false) ≡ b
or_false true = refl
or_false false = refl

-- `[...new Set(xs)]` has the elements of xs.
pub has-dedup : (xs : List Text) (t : Text) → has (dedup xs) t ≡ has xs t
unfolding dedup
has-dedup xs t = ground (arith, has-dedup_from [] xs t)

has-append : (xs ys : List Text) (t : Text) → has (xs ++ ys) t ≡ has xs t || has ys t
has-append [] ys t = refl
has-append (x ∷ xs) ys t = ground (arith, has-append xs ys t)

-- The list in the cache blocks the default patterns.
abbrev pub HasDefaults : MountAllowlist → Type 0
HasDefaults list =
    (t : Text) → has default_blocked_patterns t ≡ true → has list.blocked_patterns t ≡ true

abbrev pub IsMerged : Cache → Type 0
IsMerged c = (list : MountAllowlist) → c.cached ≡ some list → HasDefaults list

has-merged :
    (defaults patterns : List Text) (t : Text)
    → has defaults t ≡ true
    → has (dedup (defaults ++ patterns)) t ≡ true
has-merged defaults patterns t h =
    has-dedup (defaults ++ patterns) t
    ∙ (has-append defaults patterns t ∙ ap (λ b. b || has patterns t) h)

merged-HasDefaults :
    (roots : List AllowedRoot) (patterns : List Text) → HasDefaults (merged roots patterns)
merged-HasDefaults roots patterns = has-merged default_blocked_patterns patterns

-- How a call ends: with the cache as it was, with a fresh list in it, or with the error noted.
abbrev LoadCases : AllowlistFile → Cache → Type 0
LoadCases file c =
    (load_mount_allowlist file c ≡ (c, c.cached))
    ⊎ ((list : MountAllowlist) × HasDefaults list
        × (load_mount_allowlist file c ≡ (record c { cached = some list }, some list)))
    ⊎ (load_mount_allowlist file c ≡ (record c { load_failed = true }, none))

cold :
    (file : AllowlistFile) (c : Cache)
    → c.cached ≡ none
    → c.load_failed ≡ false
    → load_mount_allowlist file c ≡ read_allowlist file c
unfolding load_mount_allowlist
cold file c empty fresh = ground arith

cached_hit :
    (file : AllowlistFile) (c : Cache) (list : MountAllowlist)
    → c.cached ≡ some list
    → load_mount_allowlist file c ≡ (c, c.cached)
unfolding load_mount_allowlist
cached_hit file c list hit = ground arith

noted_failure :
    (file : AllowlistFile) (c : Cache)
    → c.cached ≡ none
    → c.load_failed ≡ true
    → load_mount_allowlist file c ≡ (c, c.cached)
unfolding load_mount_allowlist
noted_failure file c empty failed = ground arith

load_cases : (file : AllowlistFile) (c : Cache) → LoadCases file c
unfolding load_mount_allowlist read_allowlist
load_cases file c = elim (Option-cases c.cached) [
  | inr (list, hit) ↦ inl (cached_hit file c list hit)
  | inl empty ↦ elim (Bool-cases c.load_failed) [
    | inl failed ↦ inl (noted_failure file c empty failed)
    | inr fresh ↦ from_file file empty fresh
  ]
]
  where
    from_file : (file : AllowlistFile) → c.cached ≡ none → c.load_failed ≡ false → LoadCases file c
    from_file missing empty fresh = inl (cold missing c empty fresh ∙ ap (λ o. (c, o)) (sym empty))
    from_file unreadable empty fresh = inr (inr (cold unreadable c empty fresh))
    from_file (parsed none patterns) empty fresh =
        inr (inr (cold (parsed none patterns) c empty fresh))
    from_file (parsed (some roots) none) empty fresh =
        inr (inr (cold (parsed (some roots) none) c empty fresh))
    from_file (parsed (some roots) (some patterns)) empty fresh = inr (
        inl (
          merged roots patterns,
          merged-HasDefaults roots patterns,
          cold (parsed (some roots) (some patterns)) c empty fresh,
        ))

-- Whatever the file holds, the list that `loadMountAllowlist` returns blocks every default pattern,
-- and so does the one that it leaves in the cache, if a list in the cache did so before.
pub load_mount_allowlist-IsMerged :
    (file : AllowlistFile) (c : Cache)
    → IsMerged c
    → IsMerged (load_mount_allowlist file c).0
      × ((list : MountAllowlist) → (load_mount_allowlist file c).1 ≡ some list → HasDefaults list)
load_mount_allowlist-IsMerged file c h = elim (load_cases file c) [
  | inl same ↦ rw same (h, h)
  | inr (inl (list, blocks, loaded)) ↦ rw loaded (is_list list blocks, is_list list blocks)
  | inr (inr failed) ↦ rw failed (h, λ list e. absurd (not_some e))
]
  where
    is_list :
        (list : MountAllowlist)
        → HasDefaults list
        → (other : MountAllowlist) → some list ≡ some other
        → HasDefaults other
    is_list list blocks other e =
        let same : list ≡ other = ground (arith, e) in subst HasDefaults same blocks

    not_some : {list : MountAllowlist} → none ≡ some list → ⊥
    not_some e = cc
