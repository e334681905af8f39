-- ===== src/PlatformId/Namespaced.antt =====
-- `namespacedPlatformId` is stable.
use mathlib.Core.List.{append_assoc}
use paraclaw.Prelude.{◌≡◌, Text, true, ◌∷◌, [], ◌++◌, starts_with, starts_with-append, arith}
use paraclaw.PlatformId.{namespaced_platform_id}

starts_with-separator :
    (channel raw : Text) → starts_with (channel ++ (b':' ∷ raw)) (channel ++ (b':' ∷ [])) ≡ true
starts_with-separator channel raw =
    rw append_assoc at (starts_with-append (channel ++ (b':' ∷ [])) raw)

-- Prefixing a platform id that is prefixed already, or that a native adapter emits, changes
-- nothing: the function is idempotent.
pub namespaced_idem :
    (channel raw : Text)
    → namespaced_platform_id channel (namespaced_platform_id channel raw)
      ≡ namespaced_platform_id channel raw
unfolding namespaced_platform_id
namespaced_idem channel raw = ground (arith, starts_with-separator channel raw)
