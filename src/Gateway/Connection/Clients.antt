-- ===== src/Gateway/Connection/Clients.antt =====
-- Many connections and one network, which src/main.cpp gives to the gateway of each connection. The
-- event loop, in src/asio, runs the handlers of their reads; here that is one function for any of them.
pub mod Asking
pub mod Turns
use huasi.Prelude.{ℕ, Option, Bool, List, [], ◌∷◌, ◌++◌, map, Bytes, ◌==◌, if◌then◌else◌}
use huasi.Http.Url.{ParsedUrl}
use huasi.Http.Headers.{MovedFrom, HttpState}
use huasi.Gateway.Handler.{NetworkOps}
use huasi.Gateway.Connection.{Parser, on_data}

-- The parser and the headers of each connection.
abbrev pub Connections : Parser → Type 0
Connections parser = ℕ → parser.State × HttpState

abbrev pub update {ℓ} : {A : Type ℓ} → (ℕ → A) → ℕ → A → ℕ → A
update f i a j = if i == j then a else f j

abbrev pub from_client {ℓ} : {A : Type ℓ} → ℕ → List A → List (ℕ × A)
from_client i = map (λ a. (i, a))

module _ {S : Type 0} (ops : NetworkOps S) (parse_url : Bytes → ParsedUrl) (atoi : Bytes → ℕ)
    (m : MovedFrom) (parser : Parser) where
  -- A read of a connection: what is sent, with the connection that it is sent on.
  unfoldable pub on_client :
      ℕ → Bytes → Connections parser × S → (Connections parser × S) × List (ℕ × Bytes)
  on_client i bytes (cs, s) =
      let ((p, h, s'), sent, error) =
        on_data ops parse_url atoi m parser bytes ((cs i).0, (cs i).1, s) in
      ((update cs i (p, h), s'), from_client i sent)
