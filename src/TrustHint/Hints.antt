-- ===== src/TrustHint/Hints.antt =====
-- What the Map operations do to the hints that are still alive.
use paraclaw.Prelude.{
  ℕ, ◌≤◌, ◌≡◌, ◌≢◌, refl, ◌∙◌, ap, sym, Bool, false, ◌&&◌, Text, text_eq, text_eq_iff, text_eq_refl,
  none, some, [], ◌∷◌, ◌++◌, any, update, find?, is_some, ltb, arith, Bool-cases, cut, cut-append,
  Lacks, inl, inr,
}
use paraclaw.TrustHint.{Hints, key, sweep, set_hint, delete_hint}

-- Under the key `k` stands a hint that expires after `now`.
abbrev pub live : ℕ → Text → Hints → Bool
live now k hints = any (λ h. text_eq h.0 k && ltb now h.1) hints

pub live-sweep :
    (now later : ℕ) (k : Text) (hints : Hints)
    → now ≤ later
    → live later k (sweep now hints) ≡ live later k hints
unfolding sweep
live-sweep now later k [] le = refl
live-sweep now later k (h ∷ hints) le = ground (arith, live-sweep now later k hints le, le)

pub live-absent :
    (now : ℕ) (k : Text) (hints : Hints)
    → find? (λ h. text_eq h.0 k) hints ≡ none
    → live now k hints ≡ false
live-absent now k [] absent = refl
live-absent now k (h ∷ hints) absent = ground (arith, live-absent now k hints, absent)

pub is_some-find?-sweep :
    (now : ℕ) (k : Text) (hints : Hints)
    → is_some (find? (λ h. text_eq h.0 k) (sweep now hints)) ≡ live now k hints
unfolding sweep
is_some-find?-sweep now k [] = refl
is_some-find?-sweep now k (h ∷ hints) = ground (arith, is_some-find?-sweep now k hints)

pub live-delete_hint :
    (now : ℕ) (k : Text) (hints : Hints) → live now k (delete_hint k hints) ≡ false
unfolding delete_hint
live-delete_hint now k [] = refl
live-delete_hint now k (h ∷ hints) = ground (arith, live-delete_hint now k hints)

live-update :
    (now at : ℕ) (k : Text) (hints : Hints)
    → live now k (update (λ h. text_eq h.0 k) (λ h. (h.0, at)) hints)
      ≡ any (λ h. text_eq h.0 k) hints && ltb now at
live-update now at k [] = refl
live-update now at k (h ∷ hints) = ground (arith, live-update now at k hints)

live-append_own :
    (now at : ℕ) (k : Text) (hints : Hints)
    → any (λ h. text_eq h.0 k) hints ≡ false
    → live now k (hints ++ ((k, at) ∷ [])) ≡ ltb now at
live-append_own now at k [] none_here = ground (arith, text_eq_refl k)
live-append_own now at k (h ∷ hints) none_here =
    ground (arith, live-append_own now at k hints, none_here)

pub live-set_hint :
    (now at : ℕ) (k : Text) (hints : Hints) → live now k (set_hint k at hints) ≡ ltb now at
unfolding set_hint
live-set_hint now at k hints = elim (Bool-cases (any (λ h. text_eq h.0 k) hints)) [
  | inl here ↦ rw (here, set_hint) (live-update now at k hints ∙ ap (λ b. b && ltb now at) here)
  | inr absent ↦ rw (absent, set_hint) (live-append_own now at k hints absent)
]

live-update_other :
    (now at : ℕ) (k k' : Text) (hints : Hints)
    → k ≢ k'
    → live now k' (update (λ h. text_eq h.0 k) (λ h. (h.0, at)) hints) ≡ live now k' hints
live-update_other now at k k' [] ne = refl
live-update_other now at k k' (h ∷ hints) ne =
    ground
      (arith, live-update_other now at k k' hints ne, ne, text_eq_iff h.0 k, text_eq_iff h.0 k')

live-append_other :
    (now at : ℕ) (k k' : Text) (hints : Hints)
    → k ≢ k'
    → live now k' (hints ++ ((k, at) ∷ [])) ≡ live now k' hints
live-append_other now at k k' [] ne = ground (arith, text_eq_iff k k', ne)
live-append_other now at k k' (h ∷ hints) ne =
    ground (arith, live-append_other now at k k' hints ne)

pub live-set_hint_other :
    (now at : ℕ) (k k' : Text) (hints : Hints)
    → k ≢ k'
    → live now k' (set_hint k at hints) ≡ live now k' hints
unfolding set_hint
live-set_hint_other now at k k' hints ne = elim (Bool-cases (any (λ h. text_eq h.0 k) hints)) [
  | inl here ↦ rw (here, set_hint) (live-update_other now at k k' hints ne)
  | inr absent ↦ rw (absent, set_hint) (live-append_other now at k k' hints ne)
]

cut_twice :
    (c b u : Text)
    → Lacks 0 c
    → Lacks 0 b
    → (cut 0 (key c b u) ≡ some (c, b ++ (0 ∷ u))) × (cut 0 (b ++ (0 ∷ u)) ≡ some (b, u))
unfolding key
cut_twice c b u hc hb = (cut-append 0 c (b ++ (0 ∷ u)) hc, cut-append 0 b u hb)

-- Two triples without a NUL in channel and bot have the same key only if they are the same.
pub key-injective :
    (c c' b b' u u' : Text)
    → Lacks 0 c
    → Lacks 0 c'
    → Lacks 0 b
    → Lacks 0 b'
    → key c b u ≡ key c' b' u'
    → (c ≡ c') × (b ≡ b') × (u ≡ u')
key-injective c c' b b' u u' hc hc' hb hb' same =
    let first =
      sym (cut_twice c b u hc hb).0 ∙ (ap (cut 0) same ∙ (cut_twice c' b' u' hc' hb').0) in
    let rest : b ++ (0 ∷ u) ≡ b' ++ (0 ∷ u') = ground (arith, first) in
    let second =
      sym (cut_twice c b u hc hb).1 ∙ (ap (cut 0) rest ∙ (cut_twice c' b' u' hc' hb').1) in
    ground (arith, first, second)
