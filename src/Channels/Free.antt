-- ===== src/Channels/Free.antt =====
-- The loop that looks for a free name ends.
use paraclaw.Prelude.{
  ℕ, zero, suc, ◌≤◌, ◌<◌, ◌≡◌, refl, sym, ◌∙◌, Bool, true, false, not, Text, text_eq, text_eq_iff,
  some, is_some, List, [], ◌∷◌, any, filter, find?, length, Bool-cases, Option-cases, inl, inr,
  arith,
}
use paraclaw.Delivery.{Destination}
use paraclaw.Channels.Names.{suffixed, suffixed_inj}
use paraclaw.Channels.{free_name, is_named, get_destination_by_name, rounds}

-- Only the candidates matter.
free_name_same :
    (fuel : ℕ) (taken other : Text → Bool) (base name : Text) (suffix : ℕ)
    → taken name ≡ other name
    → ((k : ℕ) → suffix ≤ k → taken (suffixed base k) ≡ other (suffixed base k))
    → free_name fuel taken base name suffix ≡ free_name fuel other base name suffix
unfolding free_name
free_name_same zero taken other base name suffix here rest = refl
free_name_same (suc fuel) taken other base name suffix here rest =
    rw
      (
        here,
        free_name_same fuel taken other base (suffixed base suffix) (suc suffix)
            (rest suffix (omega arith)) (λ k h. rest k (omega arith)),
      )
      refl

-- What the loop returns is free.
pub free_name_sound :
    (fuel : ℕ) (taken : Text → Bool) (base name : Text) (suffix : ℕ) (found : Text)
    → free_name fuel taken base name suffix ≡ some found
    → taken found ≡ false
unfolding free_name
free_name_sound zero taken base name suffix found h = cc
free_name_sound (suc fuel) taken base name suffix found h = elim (Bool-cases (taken name)) [
  | inl held ↦
      free_name_sound fuel taken base (suffixed base suffix) (suc suffix) found (rw held at h)
  | inr free ↦ let e : some name ≡ some found = rw free at h in ground (arith, e, free)
]

-- A name of one of the rows.
abbrev pub holds : Text → List Destination → Text → Bool
holds group rows name = any (is_named group name) rows

length-filter :
    (p : Destination → Bool) (rows : List Destination) → length (filter p rows) ≤ length rows
length-filter p [] = omega arith
length-filter p (d ∷ rows) = ground (arith, length-filter p rows)

length-filter_drop :
    (p : Destination → Bool) (rows : List Destination)
    → any p rows ≡ true
    → length (filter (λ d. not (p d)) rows) < length rows
length-filter_drop p [] h = cc
length-filter_drop p (d ∷ rows) h =
    ground (arith, length-filter_drop p rows, length-filter (λ d. not (p d)) rows)

-- Rows with one name taken out still hold the other names.
any-filter_other :
    (group name other : Text) (rows : List Destination)
    → text_eq name other ≡ false
    → any (is_named group other) (filter (λ d. not (is_named group name d)) rows)
      ≡ any (is_named group other) rows
any-filter_other group name other [] ne = refl
any-filter_other group name other (d ∷ rows) ne = elim (Bool-cases (is_named group name d)) [
  | inl gone ↦
      let named : is_named group other d ≡ false =
        ground (arith, text_eq_iff d.local_name name, ne) in
      ground (arith, any-filter_other group name other rows ne)
  | inr kept ↦ ground (arith, any-filter_other group name other rows ne)
]

suffixed_apart :
    (base : Text) (m k : ℕ) → suc m ≤ k → text_eq (suffixed base m) (suffixed base k) ≡ false
suffixed_apart base m k h = elim (Bool-cases (text_eq (suffixed base m) (suffixed base k))) [
  | inl same ↦
      let e = suffixed_inj base m k ((text_eq_iff (suffixed base m) (suffixed base k)).0 same) in
      absurd (omega (arith, e))
  | inr apart ↦ apart
]

-- With as many rounds as there are rows, and one more, some numbered name is free.
free_name-numbered :
    (fuel : ℕ) (group base : Text) (rows : List Destination) (m : ℕ)
    → length rows < fuel
    → is_some (free_name fuel (holds group rows) base (suffixed base m) (suc m)) ≡ true
unfolding free_name
free_name-numbered zero group base rows m h = absurd (omega arith)
free_name-numbered (suc fuel) group base rows m h =
    elim (Bool-cases (holds group rows (suffixed base m))) [
      | inl held ↦
          let fewer = filter (λ d. not (is_named group (suffixed base m) d)) rows in
          let same =
            free_name_same fuel (holds group rows) (holds group fewer) base (suffixed base (suc m))
              (suc (suc m))
              (sym (
                any-filter_other group (suffixed base m) (suffixed base (suc m)) rows
                  (suffixed_apart base m (suc m) (omega arith))))
              (λ k le. sym (
                any-filter_other group (suffixed base m) (suffixed base k) rows
                  (suffixed_apart base m k (omega arith)))) in
          rw (held, same)
            (free_name-numbered fuel group base fewer (suc m)
              (omega (arith, length-filter_drop (is_named group (suffixed base m)) rows held)))
      | inr free ↦ rw free refl
    ]

free_name_total :
    (group base : Text) (rows : List Destination)
    → is_some (free_name (rounds rows) (holds group rows) base base 2) ≡ true
unfolding free_name
free_name_total group base rows = elim (Bool-cases (holds group rows base)) [
  | inl held ↦ rw held (free_name-numbered (suc (length rows)) group base rows 2 (omega arith))
  | inr free ↦ rw free refl
]

is_some-find? :
    (p : Destination → Bool) (rows : List Destination) → is_some (find? p rows) ≡ any p rows
is_some-find? p [] = refl
is_some-find? p (d ∷ rows) = ground (arith, is_some-find? p rows)

-- The loop for a free name ends: for every agent, every base name and every list of destination
-- rows, `while (getDestinationByName(...))` leaves off after at most two more rounds than there are
-- rows, and the name it leaves with is not the name of any destination of that agent.
pub free_name-ends :
    (group base : Text) (rows : List Destination)
    → (name : Text) × (free_name
          (rounds rows)
          (λ n. is_some (get_destination_by_name group n rows))
          base
          base
          2
        ≡ some name)
      × (any (is_named group name) rows ≡ false)
unfolding get_destination_by_name
free_name-ends group base rows =
    elim (Option-cases (free_name (rounds rows) (holds group rows) base base 2)) [
      | inl stuck ↦
          let no : is_some (free_name (rounds rows) (holds group rows) base base 2) ≡ false =
            rw stuck refl in
          ground (arith, no, free_name_total group base rows)
      | inr (name, found) ↦ (
        name,
        same ∙ found,
        free_name_sound (rounds rows) (holds group rows) base base 2 name found,
      )
    ]
  where
    same :
        free_name (rounds rows) (λ n. is_some (find? (is_named group n) rows)) base base 2
        ≡ free_name (rounds rows) (holds group rows) base base 2
    same =
        free_name_same (rounds rows) (λ n. is_some (find? (is_named group n) rows))
          (holds group rows) base base 2 (is_some-find? (is_named group base) rows)
          (λ k h. is_some-find? (is_named group (suffixed base k)) rows)
