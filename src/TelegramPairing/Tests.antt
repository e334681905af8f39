-- ===== src/TelegramPairing/Tests.antt =====
-- One pairing, its answer, a wrong guess and a reused code.
use paraclaw.Prelude.{◌≡◌, refl, false, Text, lit, none, some, List, [], ◌∷◌, ◌++◌, any}
use paraclaw.TelegramPairing.{
  main, PairingRecord, invalidated, ConsumeInput, create_pairing, try_consume, hit, answers,
  new_pairing,
}
use paraclaw.TelegramPairing.Consume.{rest_of, try_consume-create_pairing}

abbrev fresh : PairingRecord
fresh = new_pairing (lit "0042") main 1

abbrev one : List PairingRecord
one = fresh ∷ []

abbrev sends : Text → ConsumeInput
sends text = record {
  text = text;
  bot_username = lit "paraclaw_bot";
  platform_id = lit "telegram:7:9";
  is_group = false;
  name = none;
  admin_user_id = some (lit "9");
}

one_is_made : create_pairing main 1 (42 ∷ []) [] ≡ some (one, fresh)
unfolding create_pairing
one_is_made = refl

try_consume-create_pairing_example :
    (try_consume (sends (lit "0042")) 2 one ≡ (
      rest_of main [] ++ hit (lit "0042") (sends (lit "0042")) 2 fresh ∷ [],
      some (hit (lit "0042") (sends (lit "0042")) 2 fresh),
    ))
    × (any (answers (lit "0042")) (try_consume (sends (lit "0042")) 2 one).0 ≡ false)
try_consume-create_pairing_example =
    try_consume-create_pairing main 1 2 (42 ∷ []) [] one fresh (sends (lit "0042")) one_is_made refl

abbrev ended : List PairingRecord
ended = record fresh { status = invalidated } ∷ []

abbrev reused : List PairingRecord
reused = record fresh { status = invalidated } ∷ new_pairing (lit "0042") main 5 ∷ []
