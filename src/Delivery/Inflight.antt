-- ===== src/Delivery/Inflight.antt =====
-- `deliverSessionMessages` and `inflightDeliveries`: the active poll and the sweep poll interleave
-- at every await, and no two of them drain one session at a time.
use paraclaw.Prelude.{
  ◌≡◌, refl, true, false, not, Text, text_eq, text_eq_iff, List, [], ◌∷◌, filter, has,
  if◌then◌else◌, Bool-cases, inl, inr, arith,
}

-- The set, and the sessions of the calls that are past the guard and not yet in `finally`.
pub record Inflight : Type 0 where
  pub inflight : List Text
  pub draining : List Text

-- The call up to its first await.
unfoldable pub enter : Text → Inflight → Inflight
enter id s =
    if has s.inflight id
    then s
    else record { inflight = id ∷ s.inflight; draining = id ∷ s.draining }

abbrev pub without : Text → List Text → List Text
without id = filter (λ x. not (text_eq x id))

-- One drain of the session ends, by a return or a throw: `finally` deletes the id.
unfoldable pub remove_one : Text → List Text → List Text
remove_one id [] = []
remove_one id (x ∷ xs) = let rest = remove_one id xs in if text_eq x id then xs else x ∷ rest

unfoldable pub leave : Text → Inflight → Inflight
leave id s = record { inflight = without id s.inflight; draining = remove_one id s.draining }

-- Any call may start; a drain that runs may end.
pub data Step : Inflight → Inflight → Type 0 where
  starts : (s : Inflight) (id : Text) → Step s (enter id s)
  ends : (s : Inflight) (id : Text) → has s.draining id ≡ true → Step s (leave id s)

pub data Reach (s : Inflight) : Inflight → Type 0 where
  here : Reach s s
  next : {t u : Inflight} → Reach s t → Step t u → Reach s u

-- No session occurs twice.
abbrev pub Distinct : List Text → Type 0
Distinct [] = Unit
Distinct (x ∷ xs) = (has xs x ≡ false) × Distinct xs

pub record IsExclusive (s : Inflight) : Type 0 where
  pub distinct : Distinct s.draining
  pub guarded : (id : Text) → has s.inflight id ≡ has s.draining id

has-without :
    (id j : Text) (xs : List Text)
    → has (without id xs) j ≡ (if text_eq id j then false else has xs j)
has-without id j [] = ground arith
has-without id j (x ∷ xs) =
    ground (arith, has-without id j xs, text_eq_iff x id, text_eq_iff x j, text_eq_iff id j)

has-remove_one :
    (id j : Text) (xs : List Text)
    → Distinct xs
    → has (remove_one id xs) j ≡ (if text_eq id j then false else has xs j)
unfolding remove_one
has-remove_one id j [] h = ground arith
has-remove_one id j (x ∷ xs) (new, h) =
    ground
      (arith, has-remove_one id j xs h, new, text_eq_iff x id, text_eq_iff x j, text_eq_iff id j)

remove_one-Distinct : (id : Text) (xs : List Text) → Distinct xs → Distinct (remove_one id xs)
unfolding remove_one
remove_one-Distinct id [] h = tt
remove_one-Distinct id (x ∷ xs) (new, h) = elim (Bool-cases (text_eq x id)) [
  | inl same ↦ rw same h
  | inr other ↦
      rw other (ground (arith, has-remove_one id x xs h, new), remove_one-Distinct id xs h)
]

Step-IsExclusive : {s t : Inflight} → Step s t → IsExclusive s → IsExclusive t
unfolding enter leave
Step-IsExclusive (starts s id) h = elim (Bool-cases (has s.inflight id)) [
  | inl busy ↦ rw (busy, enter) h
  | inr free ↦
      rw (free, enter)
        (record {
          distinct = (ground (arith, free, h.guarded id), h.distinct);
          guarded = λ j. ground (arith, h.guarded j);
        })
]
Step-IsExclusive (ends s id running) h = record {
  distinct = remove_one-Distinct id s.draining h.distinct;
  guarded = λ j.
      rw (has-without id j s.inflight, has-remove_one id j s.draining h.distinct)
        (ground (arith, h.guarded j));
}

abbrev pub idle : Inflight
idle = record { inflight = []; draining = [] }

-- However the calls of the two polls interleave, no session is drained by two of them at a time.
pub Reach-Distinct : (s : Inflight) → Reach idle s → Distinct s.draining
Reach-Distinct s r = (exclusive r).distinct
  where
    exclusive : {t : Inflight} → Reach idle t → IsExclusive t
    exclusive here = record { distinct = tt; guarded = λ id. refl }
    exclusive (next r step) = Step-IsExclusive step (exclusive r)
