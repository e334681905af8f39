-- ===== src/Prelude/Cut.antt =====
-- What `cut`, `starts_with` and `includes` find.
use paraclaw.Prelude.Tests.{◌==◌, Bool-cases, Option-cases}
use paraclaw.Prelude.Strings.{Text, cut, starts_with}
use paraclaw.Prelude.Lists.{All}
use Prim.Native.Nat.{ℕ}
use mathlib.Core.Path.{◌≡◌, refl, ap}
use mathlib.Core.Logic.{◌≢◌, inl, inr}
use mathlib.Core.Bool.{true}
use mathlib.Core.Option.{none, some}
use mathlib.Core.List.{[], ◌∷◌, ◌++◌}
use native.Mathlib.Omega.{arith}

-- `c` does not occur in the text.
abbrev pub Lacks : ℕ → Text → Type 0
Lacks c = All (λ a. a ≢ c)

pub cut-append : (c : ℕ) (u v : Text) → Lacks c u → cut c (u ++ (c ∷ v)) ≡ some (u, v)
unfolding cut
cut-append c [] v h = ground arith
cut-append c (a ∷ u) v (p, h) = rw (cut-append c u v h) (ground arith)

pub cut_sound : (c : ℕ) (s u v : Text) → cut c s ≡ some (u, v) → (s ≡ u ++ (c ∷ v)) × Lacks c u
unfolding cut
cut_sound c [] u v h = cc
cut_sound c (a ∷ s) u v h = elim (Bool-cases (a == c)) [
  | inl same ↦ ground arith
  | inr other ↦ elim (Option-cases (cut c s)) [
    | inl missed ↦ ground arith
    | inr ((u', v'), found) ↦
        let ih = cut_sound c s u' v' found in
        let hu : u ≡ a ∷ u' = ground arith in
        let hv : v ≡ v' = ground arith in rw (hu, hv) (ap (λ t. a ∷ t) ih.0, (ground arith, ih.1))
  ]
]

pub cut-Lacks : (c : ℕ) (s : Text) → Lacks c s → cut c s ≡ none
unfolding cut
cut-Lacks c [] h = refl
cut-Lacks c (a ∷ s) (p, h) = rw (cut-Lacks c s h) (ground arith)

pub starts_with-append : (p s : Text) → starts_with (p ++ s) p ≡ true
unfolding starts_with
starts_with-append [] [] = refl
starts_with-append [] (a ∷ s) = refl
starts_with-append (a ∷ p) s = rw (starts_with-append p s) (ground arith)
