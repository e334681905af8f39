-- ===== src/TelegramPairing/Consume.antt =====
-- From `createPairing` to `tryConsume` and `getStatus`.
use paraclaw.Prelude.{
  ℕ, zero, suc, ◌-◌, ◌≤◌, ◌<◌, ◌≡◌, ◌≢◌, refl, ◌∙◌, sym, ap, Bool, true, false, Text, text_eq,
  text_eq_refl, has, some, List, [], ◌∷◌, ◌++◌, any, find?, length, length-append, drop, take, leb,
  arith, Option-cases, Bool-cases, inl, inr,
}
use paraclaw.TelegramPairing.{
  PairingIntent, PairingRecord, pending, ConsumeInput, is_pending, supersede, sweep, new_pairing,
  create_pairing, active_codes, consume_code, try_consume, extract_code, hit, answers, get_status,
  get_pairing, pad, update_first,
}
use paraclaw.TelegramPairing.Code.{generate_code_lem, extract_code-pad}
use paraclaw.TelegramPairing.Pending.{create_pairing-Made}

drop-append :
    (n : ℕ) (pairings : List PairingRecord) (r : PairingRecord)
    → n ≤ length pairings
    → drop n (pairings ++ r ∷ []) ≡ drop n pairings ++ r ∷ []
drop-append zero pairings r le = refl
drop-append (suc n) [] r le = absurd (omega (arith, le))
drop-append (suc n) (x ∷ pairings) r le = drop-append n pairings r (omega (arith, le))

sweep-short : (pairings : List PairingRecord) → length pairings ≤ 50 → sweep pairings ≡ pairings
unfolding sweep
sweep-short pairings le = ground (arith, le)

sweep-long :
    (pairings : List PairingRecord)
    → 50 < length pairings
    → sweep pairings ≡ drop (length pairings - 50) pairings
unfolding sweep
sweep-long pairings lt = ground (arith, lt)

-- The sweep keeps the record that was added last.
sweep-append :
    (pairings : List PairingRecord) (r : PairingRecord)
    → sweep (pairings ++ r ∷ []) ≡ drop (length pairings - 49) pairings ++ r ∷ []
sweep-append pairings r =
    let len = length-append pairings (r ∷ []) in
    elim (Bool-cases (leb (length pairings) 49)) [
      | inl short ↦
          let none_dropped : length pairings - 49 ≡ 0 = ground (arith, short) in
          sweep-short (pairings ++ r ∷ []) (ground (arith, len, short))
          ∙ sym (ap (λ n. drop n pairings ++ r ∷ []) none_dropped)
      | inr long ↦
          let shift : length (pairings ++ r ∷ []) - 50 ≡ length pairings - 49 =
            ground (arith, len) in
          sweep-long (pairings ++ r ∷ []) (ground (arith, len, long))
          ∙ (ap (λ n. drop n (pairings ++ r ∷ [])) shift
              ∙ drop-append (length pairings - 49) pairings r (omega arith))
    ]

any-drop :
    (p : PairingRecord → Bool) (n : ℕ) (pairings : List PairingRecord)
    → any p pairings ≡ false
    → any p (drop n pairings) ≡ false
any-drop p zero pairings h = h
any-drop p (suc n) [] h = refl
any-drop p (suc n) (r ∷ pairings) h = any-drop p n pairings (ground (arith, h))

find?-append :
    (p : PairingRecord → Bool) (pairings : List PairingRecord) (r : PairingRecord)
    → any p pairings ≡ false
    → p r ≡ true
    → find? p (pairings ++ r ∷ []) ≡ some r
find?-append p [] r h own = ground (arith, own)
find?-append p (x ∷ pairings) r h own = ground (arith, find?-append p pairings r, h, own)

has-active_codes :
    (code : Text) (pairings : List PairingRecord)
    → has (active_codes pairings) code ≡ any (answers code) pairings
has-active_codes code [] = refl
has-active_codes code (r ∷ pairings) = ground (arith, has-active_codes code pairings)

-- The only record that answers is changed, in its place.
update_first-append :
    (p : PairingRecord → Bool) (f : PairingRecord → PairingRecord) (pairings : List PairingRecord)
    (r : PairingRecord)
    → any p pairings ≡ false
    → p r ≡ true
    → update_first p f (pairings ++ r ∷ []) ≡ pairings ++ f r ∷ []
unfolding update_first
update_first-append p f [] r h own = rw own refl
update_first-append p f (x ∷ pairings) r h own =
    ground (arith, update_first-append p f pairings r, h, own)

-- The older records that a sweep of the new store leaves.
abbrev pub rest_of : PairingIntent → List PairingRecord → List PairingRecord
rest_of intent pairings =
    let kept = supersede intent (sweep pairings) in drop (length kept - 49) kept

consume_found :
    (code : Text) (input : ConsumeInput) (now : ℕ) (pairings swept : List PairingRecord)
    (r : PairingRecord)
    → sweep pairings ≡ swept
    → find? (answers code) swept ≡ some r
    → consume_code code input now pairings
      ≡ (update_first (answers code) (hit code input now) swept, some (hit code input now r))
unfolding consume_code
consume_found code input now pairings swept r e found =
    let there : find? (answers code) (sweep pairings) ≡ some r =
      ap (find? (answers code)) e ∙ found in
    rw (there, consume_code)
      (ap
        (λ store.
          (update_first (answers code) (hit code input now) store, some (hit code input now r)))
        e)

consume_new :
    (code : Text) (intent : PairingIntent) (now later : ℕ) (input : ConsumeInput)
    (kept : List PairingRecord)
    → any (answers code) kept ≡ false
    → consume_code code input later (kept ++ new_pairing code intent now ∷ []) ≡ (
      drop (length kept - 49) kept ++ hit code input later (new_pairing code intent now) ∷ [],
      some (hit code input later (new_pairing code intent now)),
    )
unfolding consume_code
consume_new code intent now later input kept unused =
    let r = new_pairing code intent now in
    let before = drop (length kept - 49) kept in
    let own : answers code r ≡ true = ground (arith, text_eq_refl code) in
    let free = any-drop (answers code) (length kept - 49) kept unused in
    consume_found code input later (kept ++ r ∷ []) (before ++ r ∷ []) r (sweep-append kept r)
      (find?-append (answers code) before r free own)
    ∙ ap (λ store. (store, some (hit code input later r)))
        (update_first-append (answers code) (hit code input later) before r free own)

any-closed :
    (p : PairingRecord → Bool) (pairings : List PairingRecord) (r : PairingRecord)
    → any p pairings ≡ false
    → p r ≡ false
    → any p (pairings ++ r ∷ []) ≡ false
any-closed p [] r h own = ground (arith, own)
any-closed p (x ∷ pairings) r h own = ground (arith, any-closed p pairings r, h, own)

try_consume_code :
    (code : Text) (input : ConsumeInput) (now : ℕ) (pairings : List PairingRecord)
    → extract_code input.text input.bot_username ≡ some code
    → try_consume input now pairings ≡ consume_code code input now pairings
unfolding try_consume
try_consume_code code input now pairings e = rw (e, try_consume) refl

-- `tryConsume` answers `createPairing`: the chat that sends exactly the code that `createPairing`
-- returned gets its record, with the chat's details in it. In the store the record is consumed in its
-- place, behind the older records that the sweep leaves, which are as they were, and none of them is
-- open under that code, so that the code cannot be used again.
pub try_consume-create_pairing :
    (intent : PairingIntent) (now later : ℕ) (draws : List ℕ)
    (pairings pairings' : List PairingRecord) (r : PairingRecord) (input : ConsumeInput)
    → create_pairing intent now draws pairings ≡ some (pairings', r)
    → input.text ≡ r.code
    → (try_consume input later pairings' ≡ (
      rest_of intent pairings ++ hit r.code input later r ∷ [],
      some (hit r.code input later r),
    ))
      × (any (answers r.code) (try_consume input later pairings').0 ≡ false)
try_consume-create_pairing intent now later draws pairings pairings' r input made sent =
    let (code, drawn, stored, is_new) =
      create_pairing-Made intent now draws pairings pairings' r made in
    let kept = supersede intent (sweep pairings) in
    let (number, free) = generate_code_lem (active_codes kept) (take 50 draws) code drawn in
    let unused = sym (has-active_codes code kept) ∙ free in
    let text : input.text ≡ code = sent ∙ ap (λ x. x.code) is_new in
    let result : try_consume input later pairings' ≡ (
      rest_of intent pairings ++ hit r.code input later r ∷ [],
      some (hit r.code input later r),
    ) =
      try_consume_code code input later pairings' (read code number text)
      ∙ (ap (consume_code code input later) stored
          ∙ (consume_new code intent now later input kept unused
              ∙ ap
                  (λ x. (
                    rest_of intent pairings ++ hit x.code input later x ∷ [],
                    some (hit x.code input later x),
                  ))
                  (sym is_new))) in
    let spent : any (answers r.code) (rest_of intent pairings ++ hit r.code input later r ∷ [])
        ≡ false =
      rw is_new (
        any-closed (answers code) (rest_of intent pairings)
          (hit code input later (new_pairing code intent now))
          (any-drop (answers code) (length kept - 49) kept unused) (ground arith)) in
    (result, ap (λ o. any (answers r.code) o.0) result ∙ spent)
  where
    read :
        (code : Text)
        → ((n : ℕ) × (code ≡ pad n))
        → input.text ≡ code
        → extract_code input.text input.bot_username ≡ some code
    read code (n, is_pad) text =
        ap (λ t. extract_code t input.bot_username) (text ∙ is_pad)
        ∙ (extract_code-pad n input.bot_username ∙ ap some (sym is_pad))

found_closed :
    (code : Text) (r : PairingRecord) (pairings : List PairingRecord) (x : PairingRecord)
    → any (answers code) pairings ≡ false
    → any (λ y. text_eq y.code code) pairings ≡ true
    → find? (λ y. text_eq y.code code) (pairings ++ r ∷ []) ≡ some x
    → is_pending x ≡ false
found_closed code r [] x unused old found = cc
found_closed code r (y ∷ pairings) x unused old found = elim (Bool-cases (text_eq y.code code)) [
  | inl here ↦
      let same : y ≡ x = ground (arith, here, found) in rw (← same) (ground (arith, here, unused))
  | inr other ↦
      found_closed code r pairings x (ground (arith, unused)) (ground (arith, other, old))
        (ground (arith, other, found))
]

supersede_codes :
    (intent : PairingIntent) (code : Text) (pairings : List PairingRecord)
    → any (λ y. text_eq y.code code) (supersede intent pairings)
      ≡ any (λ y. text_eq y.code code) pairings
supersede_codes intent code [] = refl
supersede_codes intent code (r ∷ pairings) = ground (arith, supersede_codes intent code pairings)

length-supersede :
    (intent : PairingIntent) (pairings : List PairingRecord)
    → length (supersede intent pairings) ≡ length pairings
length-supersede intent [] = refl
length-supersede intent (r ∷ pairings) = ap suc (length-supersede intent pairings)

get_pairing_found :
    (code : Text) (pairings : List PairingRecord)
    → get_status code pairings ≡ some pending
    → (x : PairingRecord) × (find? (λ r. text_eq r.code code) (sweep pairings) ≡ some x)
      × (is_pending x ≡ true)
unfolding get_status get_pairing
get_pairing_found code pairings h =
    elim (Option-cases (find? (λ r. text_eq r.code code) (sweep pairings))) [
      | inl missing ↦ absurd (ground (arith, missing, h))
      | inr (x, found) ↦ (x, found, ground (arith, found, h))
    ]

-- A code that comes up again hides the new pairing: if a record that is no longer open already has
-- the drawn code, and the sweep drops nothing, `getStatus` does not call the new pairing pending.
pub get_status-create_pairing :
    (intent : PairingIntent) (now : ℕ) (draws : List ℕ) (pairings pairings' : List PairingRecord)
    (r : PairingRecord)
    → create_pairing intent now draws pairings ≡ some (pairings', r)
    → length (sweep pairings) ≤ 49
    → any (λ y. text_eq y.code r.code) (sweep pairings) ≡ true
    → get_status r.code pairings' ≢ some pending
get_status-create_pairing intent now draws pairings pairings' r made few reused shown =
    let (code, drawn, stored, is_new) =
      create_pairing-Made intent now draws pairings pairings' r made in
    let kept = supersede intent (sweep pairings) in
    let (number, free) = generate_code_lem (active_codes kept) (take 50 draws) code drawn in
    let unused = sym (has-active_codes code kept) ∙ free in
    let (x, found, still_open) = get_pairing_found r.code pairings' shown in
    let coded : r.code ≡ code = ap (λ y. y.code) is_new in
    let old : any (λ y. text_eq y.code code) kept ≡ true =
      supersede_codes intent code (sweep pairings)
      ∙ (ap (λ c. any (λ y. text_eq y.code c) (sweep pairings)) (sym coded) ∙ reused) in
    let short : length kept - 49 ≡ 0 =
      omega (arith, length-supersede intent (sweep pairings), few) in
    let swept : sweep pairings' ≡ kept ++ new_pairing code intent now ∷ [] =
      ap sweep stored
      ∙ (sweep-append kept (new_pairing code intent now)
          ∙ ap (λ n. drop n kept ++ new_pairing code intent now ∷ []) short) in
    let there : find? (λ y. text_eq y.code code) (kept ++ new_pairing code intent now ∷ [])
        ≡ some x =
      ap (λ c. find? (λ y. text_eq y.code c) (kept ++ new_pairing code intent now ∷ [])) (sym coded)
      ∙ (ap (find? (λ y. text_eq y.code r.code)) (sym swept) ∙ found) in
    let closed = found_closed code (new_pairing code intent now) kept x unused old there in
    absurd (ground (arith, closed, still_open))
