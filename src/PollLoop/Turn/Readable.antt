-- ===== src/PollLoop/Turn/Readable.antt =====
-- Parts of the loop that end by themselves, where the messages can be read.
use paraclaw.Prelude.{
  ◌≡◌, refl, Bool, true, false, Option, none, some, is_some, select, List, [], ◌∷◌, all,
  if◌then◌else◌, Option-cases, Bool-cases, inl, inr, arith,
}
use paraclaw.SessionDb.{MessageIn}
use paraclaw.Formatter.{Reader}
use paraclaw.Formatter.Readable.{is_readable, is_clear_command-some}
use paraclaw.PollLoop.{Config, Runner, Outcome, ended, crashed, chain, or_crash, is_follow_up}
use paraclaw.PollLoop.Turn.{is_clear}

-- The part ends by itself, in a state with the property.
abbrev pub Ends : {A : Type 0} → (A → Type 0) → Outcome A → Type 0
Ends P (ended a) = P a
Ends P (crashed r) = ⊥

pub Ends-chain :
    {A B : Type 0} (P : A → Type 0) (Q : B → Type 0) (o : Outcome A) (f : A → Outcome B)
    → Ends P o
    → ((a : A) → P a → Ends Q (f a))
    → Ends Q (chain o f)
Ends-chain P Q (ended a) f h step = step a h
Ends-chain P Q (crashed r) f h step = absurd h

pub Ends-weaken :
    {A : Type 0} (P Q : A → Type 0) (o : Outcome A) → ((a : A) → P a → Q a) → Ends P o → Ends Q o
Ends-weaken P Q (ended a) step h = step a h
Ends-weaken P Q (crashed r) step h = absurd h

pub Ends-if :
    {A : Type 0} (P : A → Type 0) (b : Bool) (o p : Outcome A)
    → Ends P o
    → Ends P p
    → Ends P (if b then o else p)
Ends-if P true o p h k = h
Ends-if P false o p h k = k

pub Ends-or_crash :
    {A : Type 0} (P : A → Type 0) (r : Runner) (o : Option A)
    → is_some o ≡ true
    → ((a : A) → o ≡ some a → P a)
    → Ends P (or_crash r o)
Ends-or_crash P r none h step = cc
Ends-or_crash P r (some a) h step = step a refl

pub is_clear-some :
    (config : Config) (m : MessageIn)
    → is_readable config.reader m ≡ true
    → is_some (is_clear config m) ≡ true
unfolding is_clear
is_clear-some config m h = ground (arith, is_clear_command-some config.reader m h)

is_follow_up-some :
    (reader : Reader) (m : MessageIn)
    → is_readable reader m ≡ true
    → is_some (is_follow_up reader m) ≡ true
is_follow_up-some reader m h = ground (arith, is_clear_command-some reader m h)

pub select-some :
    (reader : Reader) (ms : List MessageIn)
    → all (is_readable reader) ms ≡ true
    → is_some (select (is_follow_up reader) ms) ≡ true
select-some reader [] h = refl
select-some reader (m ∷ ms) h = ground (arith, is_follow_up-some reader m, select-some reader ms, h)

-- What holds of all rows holds of the selected ones.
pub all-select :
    (p : MessageIn → Bool) (f : MessageIn → Option Bool) (ms rows : List MessageIn)
    → all p ms ≡ true
    → select f ms ≡ some rows
    → all p rows ≡ true
all-select p f [] rows h e = ground (arith, e)
all-select p f (m ∷ ms) rows h e = elim (Option-cases (f m)) [
  | inl thrown ↦ absurd (ground (arith, thrown, e))
  | inr (chosen, found) ↦ elim (Option-cases (select f ms)) [
    | inl thrown ↦ absurd (ground (arith, thrown, found, e))
    | inr (rest, there) ↦
        let later : all p rest ≡ true = all-select p f ms rest (ground (arith, h)) there in
        let made : (if chosen then m ∷ rest else rest) ≡ rows = ground (arith, found, there, e) in
        elim (Bool-cases chosen) [
          | inl taken ↦ rw (← made, taken) (ground (arith, later, h))
          | inr left ↦ rw (← made, left) later
        ]
  ]
]
