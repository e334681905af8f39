-- ===== src/PollLoop/Blocks.antt =====
-- The regular expressions of poll-loop.ts and formatter.ts: `<message to="...">...</message>` and
-- `<internal>...</internal>`, as scanners over the text. Neither backtracks: each repetition ends
-- at a character it does not take, and a body ends at the first closing tag.
use paraclaw.Prelude.{
  bind, ℕ, zero, suc, ◌-◌, Bool, Text, lit, starts_with, is_space, trim, Option, none, some, List,
  [], ◌∷◌, ◌++◌, drop, length, cut, if◌then◌else◌,
}

pub record Block : Type 0 where
  pub to : Text
  pub body : Text

-- The text behind the prefix, where the text starts with it.
unfoldable pub after_prefix : Text → Text → Option Text
after_prefix p s = if starts_with s p then some (drop (length p) s) else none

-- `\s*`
unfoldable pub skip_spaces : Text → Text
skip_spaces [] = []
skip_spaces (c ∷ s) = let rest = skip_spaces s in if is_space c then rest else c ∷ s

-- `\s+`
unfoldable pub skip_some_spaces : Text → Option Text
unfolding skip_spaces
skip_some_spaces [] = none
skip_some_spaces (c ∷ s) = if is_space c then some (skip_spaces s) else none

-- The text before the first occurrence of `p`, and behind it.
unfoldable pub until : Text → Text → Option (Text × Text)
unfolding after_prefix
until p [] = elim (after_prefix p []) [ none ↦ none | some rest ↦ some ([], rest) ]
until p (c ∷ s) =
    let later = until p s in
    elim (after_prefix p (c ∷ s)) [
      | some rest ↦ some ([], rest)
      | none ↦ elim later [ none ↦ none | some (before, rest) ↦ some (c ∷ before, rest) ]
    ]

abbrev named : Text × Text → Option (Text × Text)
named ([], rest) = none
named (c ∷ name, rest) = some (c ∷ name, rest)

-- MESSAGE_RE at the head of the text, with the text behind the match.
unfoldable pub match_block : Text → Option (Block × Text)
unfolding after_prefix skip_some_spaces skip_spaces until
match_block s = bind (after_prefix (lit "<message") s) (λ a. bind (skip_some_spaces a) (λ b.
    bind (after_prefix (lit "to=\"") b) (λ c. bind (cut b'"' c) (λ d. bind (named d) (λ e.
      bind (after_prefix (lit ">") (skip_spaces e.1)) (λ f.
        bind (until (lit "</message>") f) (λ g. some (record { to = e.0; body = g.0 }, g.1))))))))

-- A piece of the text: a block, or a character outside of blocks.
pub data Piece : Type 0 where
  block : Block → Piece
  plain : ℕ → Piece

-- The pieces in order. The number says how many characters belong to a block that was found.
unfoldable pub pieces_from : ℕ → Text → List Piece
unfolding match_block
pieces_from skip [] = []
pieces_from (suc skip) (c ∷ s) = pieces_from skip s
pieces_from zero (c ∷ s) = elim (match_block (c ∷ s)) [
  | none ↦ plain c ∷ pieces_from zero s
  | some (b, rest) ↦ block b ∷ pieces_from (length s - length rest) s
]

abbrev pub pieces : Text → List Piece
pieces text = pieces_from 0 text

unfoldable pub blocks_of : List Piece → List Block
blocks_of [] = []
blocks_of (block b ∷ ps) = b ∷ blocks_of ps
blocks_of (plain c ∷ ps) = blocks_of ps

-- The matches of MESSAGE_RE.
unfoldable pub blocks : Text → List Block
unfolding pieces_from blocks_of
blocks text = blocks_of (pieces text)

-- What is not sent: the text around the blocks, and a note for each block with an unknown name.
unfoldable pub scratch : (Text → Bool) → List Piece → Text
scratch known [] = []
scratch known (plain c ∷ ps) = c ∷ scratch known ps
scratch known (block b ∷ ps) =
    let rest = scratch known ps in
    if known b.to
    then rest
    else lit "[dropped: unknown destination \"" ++ (b.to ++ (lit "\"] " ++ (trim b.body ++ rest)))

unfoldable pub scratchpad_of : (Text → Bool) → Text → Text
unfolding pieces_from scratch
scratchpad_of known text = scratch known (pieces text)

-- The removal of `<internal>[\s\S]*?<\/internal>`, by the same scan.
unfoldable pub strip_from : ℕ → Text → Text
unfolding after_prefix until
strip_from skip [] = []
strip_from (suc skip) (c ∷ s) = strip_from skip s
strip_from zero (c ∷ s) =
    elim (bind (after_prefix (lit "<internal>") (c ∷ s)) (until (lit "</internal>"))) [
      | none ↦ c ∷ strip_from zero s
      | some (body, rest) ↦ strip_from (length s - length rest) s
    ]

-- `stripInternalTags`
unfoldable pub strip_internal_tags : Text → Text
unfolding strip_from
strip_internal_tags text = trim (strip_from 0 text)
