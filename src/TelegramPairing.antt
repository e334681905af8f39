-- ===== src/TelegramPairing.antt =====
-- src/channels/telegram-pairing.ts: the codes that prove who owns a chat. The store is the list
-- `pairings`, each function the body that runs under the lock, from the store that it reads to the
-- one that it writes. `extractAddressedText` is modelled for the bot names that Telegram allows,
-- letters, digits and '_', which the regular expression reads as they are.
pub mod Code
pub mod Pending
pub mod Consume
mod Tests
use paraclaw.Prelude.{
  ℕ, ◌+◌, ◌-◌, ◌/◌, ◌%◌, Bool, true, false, not, ◌&&◌, ◌||◌, Text, lit, text_eq, has, trim,
  to_lower, starts_with, Option, none, some, List, [], ◌∷◌, ◌++◌, filter, find?, map, update, any,
  length, drop, take, leb, if◌then◌else◌, ◌==◌, reverse,
}

pub data PairingIntent : Type 0 where
  main : PairingIntent
  wire_to : Text → PairingIntent
  new_agent : Text → PairingIntent

pub data PairingStatus : Type 0 where
  pending consumed invalidated : PairingStatus

pub record ConsumedDetails : Type 0 where
  pub platform_id : Text
  pub is_group : Bool
  pub name : Option Text
  pub admin_user_id : Option Text
  pub consumed_at : ℕ

pub record PairingAttempt : Type 0 where
  pub candidate : Text
  pub platform_id : Text
  pub at : ℕ
  pub matched : Bool

-- A missing `attempts` is the empty list.
pub record PairingRecord : Type 0 where
  pub code : Text
  pub intent : PairingIntent
  pub created_at : ℕ
  pub status : PairingStatus
  pub details : Option ConsumedDetails
  pub attempts : List PairingAttempt

-- `intentEquals`
abbrev pub intent_equals : PairingIntent → PairingIntent → Bool
intent_equals main main = true
intent_equals (wire_to a) (wire_to b) = text_eq a b
intent_equals (new_agent a) (new_agent b) = text_eq a b
intent_equals _ _ = false

abbrev pub is_pending : PairingRecord → Bool
is_pending r = elim r.status [ pending ↦ true | _ ↦ false ]

-- `xs.slice(-n)`
abbrev pub last {ℓ} : {A : Type ℓ} → ℕ → List A → List A
last n xs = drop (length xs - n) xs

-- `sweep`
unfoldable pub sweep : List PairingRecord → List PairingRecord
sweep pairings = if leb (length pairings) 50 then pairings else last 50 pairings

-- a draw below 10000 as `toString().padStart(4, '0')`
abbrev pub pad : ℕ → Text
pad n = (48 + n / 1000 % 10) ∷ (48 + n / 100 % 10) ∷ (48 + n / 10 % 10) ∷ (48 + n % 10) ∷ []

-- the loop of `generateCode` on the random draws
unfoldable pub generate_code : List Text → List ℕ → Option Text
generate_code active [] = none
generate_code active (n ∷ draws) =
    if has active (pad n) then generate_code active draws else some (pad n)

abbrev pub is_open_for : PairingIntent → PairingRecord → Bool
is_open_for intent r = is_pending r && intent_equals r.intent intent

abbrev pub invalidate : PairingRecord → PairingRecord
invalidate r = record r { status = invalidated }

-- the first loop of `createPairing`
abbrev pub supersede : PairingIntent → List PairingRecord → List PairingRecord
supersede intent pairings = update (is_open_for intent) invalidate pairings

abbrev pub active_codes : List PairingRecord → List Text
active_codes pairings = map (λ r. r.code) (filter is_pending pairings)

abbrev pub new_pairing : Text → PairingIntent → ℕ → PairingRecord
new_pairing code intent now = record {
  code = code;
  intent = intent;
  created_at = now;
  status = pending;
  details = none;
  attempts = [];
}

-- `createPairing`: the store and the record, `none` where no free code was drawn
unfoldable pub create_pairing :
    PairingIntent → ℕ → List ℕ → List PairingRecord → Option (List PairingRecord × PairingRecord)
unfolding generate_code sweep
create_pairing intent now draws pairings =
    let kept = supersede intent (sweep pairings) in
    elim (generate_code (active_codes kept) (take 50 draws)) [
      | none ↦ none
      | some code ↦ some (kept ++ new_pairing code intent now ∷ [], new_pairing code intent now)
    ]

abbrev pub is_digit : ℕ → Bool
is_digit c = leb 48 c && leb c 57

abbrev pub is_word : ℕ → Bool
is_word c = is_digit c || (leb 65 c && leb c 90) || (leb 97 c && leb c 122) || c == 95

-- `\b` between the two texts, the first one reversed
abbrev pub boundary : Text → Text → Bool
boundary [] [] = false
boundary [] (b ∷ _) = is_word b
boundary (a ∷ _) [] = is_word a
boundary (a ∷ _) (b ∷ _) = if is_word a then not (is_word b) else is_word b

-- `extractAddressedText`
unfoldable pub extract_addressed_text : Text → Text → Option Text
extract_addressed_text text bot =
    let trimmed = trim text in
    let mention = b'@' ∷ bot in
    let rest = drop (length mention) trimmed in
    if starts_with (to_lower trimmed) (to_lower mention) && boundary (reverse mention) rest
    then some (trim rest)
    else none

-- `/^(\d{4})$/`
abbrev pub four_digits : Text → Option Text
four_digits (a ∷ b ∷ c ∷ d ∷ []) =
    if is_digit a && is_digit b && is_digit c && is_digit d then some (a ∷ b ∷ c ∷ d ∷ []) else none
four_digits _ = none

-- `extractCode`
unfoldable pub extract_code : Text → Text → Option Text
unfolding extract_addressed_text
extract_code text bot = elim (extract_addressed_text text bot) [
  | some addressed ↦ four_digits (trim addressed)
  | none ↦ four_digits (trim text)
]

pub record ConsumeInput : Type 0 where
  pub text : Text
  pub bot_username : Text
  pub platform_id : Text
  pub is_group : Bool
  pub name : Option Text
  pub admin_user_id : Option Text

abbrev pub attempt_of : Text → ConsumeInput → ℕ → Bool → PairingAttempt
attempt_of code input now matched = record {
  candidate = code;
  platform_id = input.platform_id;
  at = now;
  matched = matched;
}

-- what a miss does to a pending record
abbrev pub miss : PairingAttempt → PairingRecord → PairingRecord
miss attempt r = record r { attempts = last 10 (r.attempts ++ attempt ∷ []); status = invalidated }

-- what a match does to the record
abbrev pub hit : Text → ConsumeInput → ℕ → PairingRecord → PairingRecord
hit code input now r = record r {
  status = consumed;
  details = some (record {
    platform_id = input.platform_id;
    is_group = input.is_group;
    name = input.name;
    admin_user_id = input.admin_user_id;
    consumed_at = now;
  });
  attempts = last 10 (r.attempts ++ attempt_of code input now true ∷ []);
}

abbrev pub answers : Text → PairingRecord → Bool
answers code r = text_eq r.code code && is_pending r

-- the first row that satisfies `p`, changed in place
unfoldable pub update_first :
    (PairingRecord → Bool)
    → (PairingRecord → PairingRecord)
    → List PairingRecord
    → List PairingRecord
update_first p f [] = []
update_first p f (r ∷ pairings) =
    let rest = update_first p f pairings in if p r then f r ∷ pairings else r ∷ rest

-- `tryConsume` with the code that the text holds
unfoldable pub consume_code :
    Text → ConsumeInput → ℕ → List PairingRecord → List PairingRecord × Option PairingRecord
unfolding sweep update_first
consume_code code input now pairings =
    let swept = sweep pairings in
    elim (find? (answers code) swept) [
      | none ↦ (update is_pending (miss (attempt_of code input now false)) swept, none)
      | some r ↦
          (update_first (answers code) (hit code input now) swept, some (hit code input now r))
    ]

-- `tryConsume`
unfoldable pub try_consume :
    ConsumeInput → ℕ → List PairingRecord → List PairingRecord × Option PairingRecord
unfolding extract_code consume_code
try_consume input now pairings = elim (extract_code input.text input.bot_username) [
  | none ↦ (pairings, none)
  | some code ↦ consume_code code input now pairings
]

-- `getPairing`
unfoldable pub get_pairing : Text → List PairingRecord → Option PairingRecord
unfolding sweep
get_pairing code pairings = find? (λ r. text_eq r.code code) (sweep pairings)

-- `getStatus`; `none` is 'unknown'
unfoldable pub get_status : Text → List PairingRecord → Option PairingStatus
unfolding get_pairing
get_status code pairings = elim (get_pairing code pairings) [ none ↦ none | some r ↦ some r.status ]
