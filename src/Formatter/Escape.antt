-- ===== src/Formatter/Escape.antt =====
-- What `escapeXml` lets through.
use paraclaw.Prelude.{
  ℕ, ◌≡◌, ◌≢◌, refl, ◌∙◌, ap, Text, lit, [], ◌∷◌, ◌++◌, All, All-append, ◌==◌, if◌then◌else◌, arith,
}
use paraclaw.Formatter.{replace_char, escape_xml}

-- The entity of a character, or the character.
pub escape_char : ℕ → Text
escape_char c =
    if c == b'&'
    then lit "&amp;"
    else if c == b'<'
    then lit "&lt;"
    else if c == b'>'
    then lit "&gt;"
    else if c == b'"'
    then lit "&quot;"
    else c ∷ []

-- Each character escaped on its own.
pub escape_each : Text → Text
unfolding escape_char
escape_each [] = []
escape_each (c ∷ s) = escape_char c ++ escape_each s

-- Safe in the text and in the attributes of a tag.
abbrev pub IsPlain : Text → Type 0
IsPlain = All (λ c. (c ≢ b'<') × (c ≢ b'>') × (c ≢ b'"'))

escape_char-IsPlain : (c : ℕ) → IsPlain (escape_char c)
unfolding escape_char
escape_char-IsPlain c = ground arith

escape_each-IsPlain : (s : Text) → IsPlain (escape_each s)
unfolding escape_each
escape_each-IsPlain [] = tt
escape_each-IsPlain (c ∷ s) =
    All-append (λ a. (a ≢ b'<') × (a ≢ b'>') × (a ≢ b'"')) (escape_char c) (escape_each s)
      (escape_char-IsPlain c) (escape_each-IsPlain s)

escape_xml-cons : (c : ℕ) (s : Text) → escape_xml (c ∷ s) ≡ escape_char c ++ escape_xml s
unfolding escape_xml escape_char replace_char
escape_xml-cons c s = ground arith

escape_xml_each : (s : Text) → escape_xml s ≡ escape_each s
unfolding escape_xml replace_char escape_each
escape_xml_each [] = refl
escape_xml_each (c ∷ s) = escape_xml-cons c s ∙ ap (λ t. escape_char c ++ t) (escape_xml_each s)

-- What `escapeXml` gives cannot close a tag or an attribute: replacing four characters one after the
-- other over the whole text gives what escaping each character on its own gives, and the result has no
-- `<`, no `>` and no `"`, whatever the text.
pub escape_xml-IsPlain : (s : Text) → (escape_xml s ≡ escape_each s) × IsPlain (escape_xml s)
escape_xml-IsPlain s = (escape_xml_each s, rw (escape_xml_each s) (escape_each-IsPlain s))
