-- ===== src/Channels/Names.antt =====
-- `normalizeName` of src/modules/agent-to-agent/db/agent-destinations.ts and the numbered names that
-- the collision loops of messaging-groups.ts and create-agent.ts try.
use paraclaw.Prelude.{
  ℕ, zero, suc, ◌+◌, ◌-◌, ◌*◌, ◌/◌, ◌%◌, ◌<◌, ◌≡◌, refl, sym, ◌∙◌, ap, Bool, true, false, ◌&&◌,
  ◌||◌, Text, lit, [], ◌∷◌, ◌++◌, reverse, to_lower, leb, ltb, ◌==◌, if◌then◌else◌, Bool-cases, inl,
  inr, arith,
}

-- `[a-z0-9]`
abbrev pub is_name_char : ℕ → Bool
is_name_char c = (leb 97 c && leb c 122) || (leb 48 c && leb c 57)

-- `.replace(/[^a-z0-9]+/g, '-')`; the flag says that the run before was replaced already.
unfoldable pub dash_runs : Bool → Text → Text
dash_runs within [] = []
dash_runs within (c ∷ s) =
    let kept = dash_runs false s in
    let dropped = dash_runs true s in
    if is_name_char c then c ∷ kept else if within then dropped else b'-' ∷ dropped

abbrev pub drop_dashes : Text → Text
drop_dashes [] = []
drop_dashes (c ∷ s) = if c == b'-' then drop_dashes s else c ∷ s

-- `.replace(/^-+|-+$/g, '')`
abbrev pub strip_dashes : Text → Text
strip_dashes s = reverse (drop_dashes (reverse (drop_dashes s)))

abbrev or_unnamed : Text → Text
or_unnamed [] = lit "unnamed"
or_unnamed (c ∷ s) = c ∷ s

-- `normalizeName`
unfoldable pub normalize_name : Text → Text
unfolding dash_runs
normalize_name name = or_unnamed (strip_dashes (dash_runs false (to_lower name)))

-- The decimal digits of a number, on fuel: `n + 1` rounds are enough.
unfoldable pub digits_from : ℕ → ℕ → Text
digits_from zero n = []
digits_from (suc fuel) n =
    let front = digits_from fuel (n / 10) in
    if ltb n 10 then (48 + n) ∷ [] else front ++ ((48 + n % 10) ∷ [])

abbrev pub digits : ℕ → Text
digits n = digits_from (suc n) n

-- `${base}-${suffix}`
unfoldable pub suffixed : Text → ℕ → Text
unfolding digits_from
suffixed base n = base ++ (lit "-" ++ digits n)

-- The number that decimal digits stand for.
unfoldable number_from : ℕ → Text → ℕ
number_from n [] = n
number_from n (c ∷ s) = number_from (n * 10 + (c - 48)) s

number_from-append :
    (n : ℕ) (s : Text) (c : ℕ) → number_from n (s ++ (c ∷ [])) ≡ number_from n s * 10 + (c - 48)
unfolding number_from
number_from-append n [] c = refl
number_from-append n (d ∷ s) c = number_from-append (n * 10 + (d - 48)) s c

number_from-digits : (fuel n : ℕ) → n < fuel → number_from 0 (digits_from fuel n) ≡ n
unfolding number_from digits_from
number_from-digits zero n h = absurd (omega arith)
number_from-digits (suc fuel) n h = elim (Bool-cases (ltb n 10)) [
  | inl small ↦ rw small (ground arith)
  | inr large ↦
      rw
        (
          large,
          number_from-append 0 (digits_from fuel (n / 10)) (48 + n % 10),
          number_from-digits fuel (n / 10) (ground arith),
        )
        (ground arith)
]

append_inj : (p s t : Text) → p ++ s ≡ p ++ t → s ≡ t
append_inj [] s t h = h
append_inj (c ∷ p) s t h = append_inj p s t (ground arith)

-- Two numbers give two names.
pub suffixed_inj : (base : Text) (m n : ℕ) → suffixed base m ≡ suffixed base n → m ≡ n
unfolding suffixed
suffixed_inj base m n h =
    let same : digits m ≡ digits n =
      append_inj (lit "-") (digits m) (digits n) (append_inj base _ _ h) in
    sym (number_from-digits (suc m) m (omega arith))
    ∙ (ap (number_from 0) same ∙ number_from-digits (suc n) n (omega arith))
