-- ===== src/Gateway/Connection/Pipelining.antt =====
-- Requests that come one after the other on a connection.
use huasi.Prelude.{ℕ, ◌≡◌, refl, sym, ap, ◌∙◌, List, [], ◌∷◌, ◌++◌, Bytes, All}
use huasi.Http.Url.{ParsedUrl}
use huasi.Http.Headers.{MovedFrom, HttpState, new_state}
use huasi.Http.Headers.Chunks.{FreshIn, LeavesEmpty}
use huasi.Gateway.Handler.{NetworkOps}
use huasi.Gateway.Connection.{Callback, Parser, called_back_all, on_data, on_data_all}
use huasi.Gateway.Connection.Calls.{ClientRequest, calls_all, serve, run, run-append, calls_all_lem}

module _ (parser : Parser) where
  -- The calls that the parser makes during these reads, and its state afterwards.
  abbrev pub calls_made : List Bytes → parser.State → List Callback
  calls_made [] p = []
  calls_made (bytes ∷ reads) p =
      let (p', made, parsed) = parser.execute p bytes in made ++ calls_made reads p'

  abbrev pub state_after : List Bytes → parser.State → parser.State
  state_after [] p = p
  state_after (bytes ∷ reads) p = state_after reads (parser.execute p bytes).0

module _ {S : Type 0} (ops : NetworkOps S) (parse_url : Bytes → ParsedUrl) (atoi : Bytes → ℕ)
    (m : MovedFrom) where
  module _ (parser : Parser) where
    on_data_all-run :
        (reads : List Bytes) (p : parser.State) (c : HttpState × S)
        → on_data_all ops parse_url atoi m parser reads (p, c.0, c.1) ≡ (
          (
            state_after parser reads p,
            (run ops parse_url atoi m (calls_made parser reads p) c).0.0,
            (run ops parse_url atoi m (calls_made parser reads p) c).0.1,
          ),
          (run ops parse_url atoi m (calls_made parser reads p) c).1,
        )
    unfolding called_back_all on_data_all on_data
    on_data_all-run [] p c = refl
    on_data_all-run (bytes ∷ reads) p c =
        let (p', made, parsed) = parser.execute p bytes in
        let (c', sent) = run ops parse_url atoi m made c in
        ap (λ (r : (parser.State × HttpState × S) × List Bytes). (r.0, sent ++ r.1))
          (on_data_all-run reads p' c')
        ∙ ap
            (λ (r : (HttpState × S) × List Bytes).
              ((state_after parser reads p', r.0.0, r.0.1), r.1))
            (sym (run-append ops parse_url atoi m made (calls_made parser reads p') c))

    -- However the bytes of several requests are cut into reads, and however the parser cuts the
    -- requests into pieces: the gateway answers the requests one after the other, in their order,
    -- each in the state that the ones before it left, and sends nothing else; the channel is as new
    -- afterwards. The calls that the parser makes during the reads are those of the requests, in none
    -- of them a name of a header comes twice, and moved strings and maps are left empty.
    pub requests_answered_in_order :
        (empty : LeavesEmpty m) (reads : List Bytes) (p : parser.State) (rs : List ClientRequest)
        (s : S)
        → calls_made parser reads p ≡ calls_all rs
        → All (λ r. FreshIn [] r.headers) rs
        → on_data_all ops parse_url atoi m parser reads (p, new_state, s) ≡ (
          (state_after parser reads p, new_state, (serve ops parse_url atoi rs s).0),
          (serve ops parse_url atoi rs s).1,
        )
    requests_answered_in_order empty reads p rs s made fresh =
        on_data_all-run reads p (new_state, s)
        ∙ ap
            (λ (r : (HttpState × S) × List Bytes).
              ((state_after parser reads p, r.0.0, r.0.1), r.1))
            (ap (λ l. run ops parse_url atoi m l (new_state, s)) made
              ∙ calls_all_lem ops parse_url atoi m empty rs s fresh)
