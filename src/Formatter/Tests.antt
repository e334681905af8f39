-- ===== src/Formatter/Tests.antt =====
-- A sender's name that would close the attribute, and a batch with a raw command in it.
use paraclaw.Prelude.{◌≡◌, refl, Text, lit, [], ◌∷◌}
use paraclaw.Formatter.{escape_xml, command_word, join}
use paraclaw.Formatter.Escape.{escape_each, IsPlain, escape_xml-IsPlain}

abbrev rude : Text
rude = lit "a\" <b>&amp;"

rude_escaped : escape_xml rude ≡ lit "a&quot; &lt;b&gt;&amp;amp;"
unfolding escape_xml
rude_escaped = refl

first_word : command_word (lit "/clear all") ≡ lit "/clear"
unfolding command_word
first_word = refl

joined : join (lit ", ") (lit "a" ∷ lit "b" ∷ []) ≡ lit "a, b"
unfolding join
joined = refl

escape_xml-IsPlain_example : (escape_xml rude ≡ escape_each rude) × IsPlain (escape_xml rude)
escape_xml-IsPlain_example = escape_xml-IsPlain rude
