-- ===== src/Http.antt =====
-- src/performance/http/mod.rs: the versions of HTTP; the children hold the server and the client.
pub mod Server
pub mod Client
use speed_cli.Base.{Bool, true, false, if◌then◌else◌, List, [], ◌∷◌, ℕ}

pub data HttpVersion : Type 0 where
  http1 : HttpVersion
  h2c : HttpVersion
  http2 : HttpVersion
  http3 : HttpVersion

abbrev pub is_secure : HttpVersion → Bool
is_secure http2 = true
is_secure http3 = true
is_secure _ = false

unfoldable pub scheme : HttpVersion → List ℕ
scheme v =
    if is_secure v then b'h' ∷ b't' ∷ b't' ∷ b'p' ∷ b's' ∷ [] else b'h' ∷ b't' ∷ b't' ∷ b'p' ∷ []
