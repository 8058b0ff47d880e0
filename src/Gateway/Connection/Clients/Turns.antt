-- ===== src/Gateway/Connection/Clients/Turns.antt =====
-- A read of one of many connections.
use huasi.Prelude.{ℕ, ◌≡◌, ap, List, Bytes}
use huasi.Http.Url.{ParsedUrl}
use huasi.Http.Headers.{MovedFrom, HttpState}
use huasi.Gateway.Handler.{NetworkOps}
use huasi.Gateway.Connection.{Parser, on_data}
use huasi.Gateway.Connection.Clients.{Connections, update, from_client, on_client}
use huasi.Gateway.Connection.Clients.Asking.{Asked, asked_by_all, answers, called_back_all_lem}

module _ (m : MovedFrom) (parser : Parser) where
  -- What a read of a connection asks.
  abbrev pub asked_in : Bytes → parser.State × HttpState → (parser.State × HttpState) × List Asked
  asked_in bytes (p, h) =
      let (p', made, parsed) = parser.execute p bytes in
      let (h', asked) = asked_by_all m made h in ((p', h'), asked)

module _ {S : Type 0} (ops : NetworkOps S) (parse_url : Bytes → ParsedUrl) (atoi : Bytes → ℕ) where
  module _ (m : MovedFrom) (parser : Parser) where
    -- It answers what it asks, one request after the other, and leaves the other connections.
    pub on_client_lem :
        (i : ℕ) (bytes : Bytes) (cs : Connections parser) (s : S)
        → on_client ops parse_url atoi m parser i bytes (cs, s)
          ≡ let (c, asked) = asked_in m parser bytes (cs i) in
            let (s', sent) = answers ops parse_url atoi asked s in
            ((update cs i c, s'), from_client i sent)
    unfolding on_client on_data
    on_client_lem i bytes cs s =
        let (p', made, parsed) = parser.execute (cs i).0 bytes in
        ap
          (λ (r : (HttpState × S) × List Bytes).
            ((update cs i (p', r.0.0), r.0.1), from_client i r.1))
          (called_back_all_lem ops parse_url atoi m made (cs i).1 s)
