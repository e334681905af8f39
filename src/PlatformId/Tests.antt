-- ===== src/PlatformId/Tests.antt =====
-- Runs of the platform id codec.
use paraclaw.Prelude.{◌≡◌, refl, lit, some, cut, arith}
use paraclaw.PlatformId.{encode_platform_id, decode_platform_id_as}
use paraclaw.PlatformId.RoundTrip.{decode_platform_id_as-encode}

discord_dm :
    decode_platform_id_as (lit "discord:7:@me:9")
    ≡ record { channel = lit "discord"; bot_id = some (lit "7"); native = lit "@me:9" }
unfolding decode_platform_id_as cut
discord_dm = refl

decode_platform_id_as-encode_example :
    decode_platform_id_as (encode_platform_id (lit "discord") (lit "7") (lit "g:c"))
    ≡ record { channel = lit "discord"; bot_id = some (lit "7"); native = lit "g:c" }
decode_platform_id_as-encode_example =
    decode_platform_id_as-encode (lit "discord") (lit "7") (lit "g:c") (omega arith) (omega arith)
