-- ===== src/PlatformId.antt =====
-- src/platform-id.ts: the encoding of a platform_id. A text is the list of its character codes;
-- b':' is the separator.
pub mod RoundTrip
pub mod Namespaced
mod Tests
use paraclaw.Prelude.{
  ℕ, ◌||◌, Text, lit, Option, none, some, ◌∷◌, [], ◌++◌, cut, starts_with, includes, if◌then◌else◌,
}

pub record DecodedPlatformId : Type 0 where
  pub channel : Text
  pub bot_id : Option Text
  pub native : Text

-- `encodePlatformId`
unfoldable pub encode_platform_id : Text → Text → Text → Text
encode_platform_id channel bot_id native = channel ++ (b':' ∷ (bot_id ++ (b':' ∷ native)))

-- `decodePlatformId`
unfoldable pub decode_platform_id : Text → DecodedPlatformId
decode_platform_id prefixed = elim (cut b':' prefixed) [
  | none ↦ record { channel = prefixed; bot_id = none; native = [] }
  | some (channel, rest) ↦ record { channel = channel; bot_id = none; native = rest }
]

-- the part of `decodePlatformIdAs` behind the first colon
after_channel : Text → Text → DecodedPlatformId
after_channel channel rest = elim (cut b':' rest) [
  | none ↦ record { channel = channel; bot_id = none; native = rest }
  | some (bot_id, native) ↦ record { channel = channel; bot_id = some bot_id; native = native }
]

-- `decodePlatformIdAs`
unfoldable pub decode_platform_id_as : Text → DecodedPlatformId
unfolding after_channel
decode_platform_id_as prefixed = elim (cut b':' prefixed) [
  | none ↦ record { channel = prefixed; bot_id = none; native = [] }
  | some (channel, rest) ↦ after_channel channel rest
]

-- `namespacedPlatformId`
unfoldable pub namespaced_platform_id : Text → Text → Text
namespaced_platform_id channel raw =
    if starts_with raw (channel ++ (b':' ∷ []))
    then raw
    else if includes raw (lit "@")
    then raw
    else if starts_with raw (lit "+") || starts_with raw (lit "group:")
    then raw
    else channel ++ (b':' ∷ raw)
