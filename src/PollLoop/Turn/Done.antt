-- ===== src/PollLoop/Turn/Done.antt =====
-- A message that a turn takes up is completed when the turn ends.
use paraclaw.Prelude.{◌≡◌, true, Text, Option, is_some}
use paraclaw.SessionDb.{MessageIn}
use paraclaw.Formatter.Readable.{is_readable}
use paraclaw.PollLoop.{Config}
use paraclaw.PollLoop.Turn.{Loop}
use paraclaw.PollLoop.Turn.Keeps.{Readable, Done}

-- What a turn relies on: the provider takes a query, and the task scripts leave what can be read so.
pub record IsServed (config : Config) : Type 0 where
  pub returns :
      (prompt : Text) (continuation : Option Text)
      → is_some (config.query prompt continuation) ≡ true
  pub enriched :
      (m : MessageIn)
      → is_readable config.reader m ≡ true
      → is_readable config.reader (config.enrich m) ≡ true

module _ (config : Config) (id : Text) (served : IsServed config) where
  -- The messages can be read, and the message is completed.
  abbrev Settled : Loop → Type 0
  Settled l = Done config id Unit l.runner
