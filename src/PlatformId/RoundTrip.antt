-- ===== src/PlatformId/RoundTrip.antt =====
-- Encoding and decoding are inverse on the v2 shape.
use paraclaw.Prelude.{
  ◌≡◌, Text, some, ◌∷◌, ◌++◌, cut, Lacks, cut-append, cut_sound, Option-cases, inl, inr, arith,
}
use paraclaw.PlatformId.{encode_platform_id, decode_platform_id_as}

-- Decoding what `encodePlatformId` built gives back the channel, the bot id and the native id,
-- when the channel and the bot id hold no colon; the native id may hold colons.
pub decode_platform_id_as-encode :
    (channel bot_id native : Text)
    → Lacks b':' channel
    → Lacks b':' bot_id
    → decode_platform_id_as (encode_platform_id channel bot_id native)
      ≡ record { channel = channel; bot_id = some bot_id; native = native }
unfolding decode_platform_id_as encode_platform_id
decode_platform_id_as-encode channel bot_id native h k =
    ground (
      arith,
      cut-append b':' channel (bot_id ++ (b':' ∷ native)) h,
      cut-append b':' bot_id native k,
    )

-- A platform id that decodes with a bot id is the encoding of its three parts.
pub encode-decode_platform_id_as :
    (prefixed bot_id : Text)
    → (decode_platform_id_as prefixed).bot_id ≡ some bot_id
    → encode_platform_id
        (decode_platform_id_as prefixed).channel
        bot_id
        (decode_platform_id_as prefixed).native
      ≡ prefixed
unfolding decode_platform_id_as encode_platform_id
encode-decode_platform_id_as prefixed bot_id h = elim (Option-cases (cut b':' prefixed)) [
  | inl missed ↦ ground arith
  | inr ((channel, rest), found) ↦ elim (Option-cases (cut b':' rest)) [
    | inl missed ↦ ground arith
    | inr ((bot, native), second) ↦
        let outer = (cut_sound b':' prefixed channel rest found).0 in
        let inner = (cut_sound b':' rest bot native second).0 in ground (arith, outer, inner)
  ]
]
