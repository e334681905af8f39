-- ===== src/MountSecurity/Blocked.antt =====
-- `matchesBlockedPattern` tests every component and then the whole path; the whole path decides.
use paraclaw.Prelude.{
  ℕ, ◌==◌, ◌≡◌, refl, ap, Bool, true, false, ◌||◌, Text, text_eq, text_eq_iff, includes,
  starts_with, split, List, [], ◌∷◌, ◌++◌, any, find?, Bool-cases, ◌⊎◌, inl, inr, arith,
}
use paraclaw.MountSecurity.{is_blocked_by, matches_blocked_pattern}

List-cases : (us : List Text) → (us ≡ []) ⊎ ((v : Text) × (vs : List Text) × (us ≡ v ∷ vs))
List-cases [] = inl refl
List-cases (v ∷ vs) = inr (v, vs, refl)

starts_with_longer : (s t p : Text) → starts_with s p ≡ true → starts_with (s ++ t) p ≡ true
unfolding starts_with
starts_with_longer [] [] [] h = refl
starts_with_longer [] (b ∷ t) [] h = refl
starts_with_longer [] t (b ∷ p) h = cc
starts_with_longer (a ∷ s) t [] h = refl
starts_with_longer (a ∷ s) t (b ∷ p) h = ground (arith, starts_with_longer s t p, h)

includes_self : (p : Text) → includes p p ≡ true
unfolding includes
includes_self [] = refl
includes_self (a ∷ p) = ground (arith, starts_with_self p)
  where
    starts_with_self : (p : Text) → starts_with p p ≡ true
    starts_with_self [] = refl
    starts_with_self (a ∷ p) = ground (arith, starts_with_self p)

-- The text up to the first separator is a prefix.
split_head : (c : ℕ) (s u : Text) (us : List Text) → split c s ≡ u ∷ us → (t : Text) × (s ≡ u ++ t)
unfolding split
split_head c [] u us e = ([], blank)
  where
    blank : [] ≡ u ++ []
    blank = ground (arith, e)
split_head c (a ∷ s) u us e = elim (Bool-cases (a == c)) [
  | inl cut ↦ let empty : u ≡ [] = ground (arith, cut, e) in (a ∷ s, rw empty)
  | inr more ↦ elim (List-cases (split c s)) [
    | inl none_left ↦ let one : u ≡ a ∷ [] = ground (arith, more, none_left, e) in (s, rw one)
    | inr (v, vs, rest) ↦
        let (t, whole) = split_head c s v vs rest in
        let longer : u ≡ a ∷ v = ground (arith, more, rest, e) in
        (t, rw longer (ap (λ x. a ∷ x) whole))
  ]
]

-- A pattern in a component is in the path.
any-split :
    (c : ℕ) (s p : Text) → any (λ part. includes part p) (split c s) ≡ true → includes s p ≡ true
unfolding split includes
any-split c [] p h = ground (arith, h)
any-split c (a ∷ s) p h = elim (Bool-cases (a == c)) [
  | inl cut ↦ ground (arith, cut, h, any-split c s p, starts_with_longer [] (a ∷ s) p)
  | inr more ↦ elim (List-cases (split c s)) [
    | inl none_left ↦ ground (
      arith,
      more,
      none_left,
      h,
      starts_with_longer (a ∷ []) s p,
      starts_with_longer [] (a ∷ s) p,
    )
    | inr (v, vs, rest) ↦
        let (t, whole) = split_head c s v vs rest in
        ground (
          arith,
          more,
          rest,
          h,
          any-split c s p,
          ap (λ x. starts_with (a ∷ x) p) whole,
          starts_with_longer (a ∷ v) t p,
        )
  ]
]

is_blocked_by_lem : (path p : Text) → is_blocked_by path p ≡ includes path p
unfolding is_blocked_by
is_blocked_by_lem path p = elim (Bool-cases (any (λ part. includes part p) (split b'/' path))) [
  | inl inside ↦ let whole = any-split b'/' path p inside in rw whole (or_true _)
  | inr outside ↦ rw (parts (split b'/' path) outside)
]
  where
    or_true : (b : Bool) → (b || true) ≡ true
    or_true true = refl
    or_true false = refl

    parts :
        (us : List Text)
        → any (λ part. includes part p) us ≡ false
        → any (λ part. text_eq part p || includes part p) us ≡ false
    parts [] h = refl
    parts (u ∷ us) h = ground (arith, h, parts us, text_eq_iff u p, includes_self p)

-- The pattern that `matchesBlockedPattern` reports is the first one that the real path contains
-- anywhere; the tests on the components add nothing.
pub matches_blocked_pattern_lem :
    (path : Text) (patterns : List Text)
    → matches_blocked_pattern path patterns ≡ find? (includes path) patterns
unfolding matches_blocked_pattern
matches_blocked_pattern_lem path [] = refl
matches_blocked_pattern_lem path (p ∷ ps) =
    ground (arith, is_blocked_by_lem path p, matches_blocked_pattern_lem path ps)
