-- ===== src/Headers/Tests.antt =====
-- src/headers.rs: a well-known header with a value that is trimmed.
use ws_fabric.Prelude.{[], ◌∷◌, Text, list_eq}
use ws_fabric.Error.{Error}
use ws_fabric.Headers.Known.{Known}

abbrev host : Text
host = b'h' ∷ b'o' ∷ b's' ∷ b't' ∷ []

abbrev padded : Text
padded = b' ' ∷ b'a' ∷ b' ' ∷ []
