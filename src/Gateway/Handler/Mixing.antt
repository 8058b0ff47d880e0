-- ===== src/Gateway/Handler/Mixing.antt =====
-- The two messages of an answer with a body: `Gateway::onRequest` sends the second one at once.
use huasi.Prelude.{ℕ, ◌≡◌, ◌≢◌, refl, sym, ◌∙◌, ap, true, Bool, [], ◌∷◌, ◌++◌, Bytes, length}
use mathlib.Core.Path.{subst}
use huasi.Http.Url.{ParsedUrl}
use huasi.Channel.Wire.{Wire, send_all, Transfers}
use huasi.Channel.Wire.Order.{two_sends_mix}
use huasi.Gateway.Query.{body}
use huasi.Gateway.Query.Inverse.{body-ne_nil}
use huasi.Gateway.Handler.{NetworkOps, method_get, content_answer, addressed, node_of, on_request}

module _ {S : Type 0} (ops : NetworkOps S) (parse_url : Bytes → ParsedUrl) (atoi : Bytes → ℕ) where
  two_messages :
      (keep_alive : Bool) (url : Bytes) (s : S)
      → addressed parse_url url ≡ true
      → (ops.get (node_of parse_url atoi url) [] s).0 ≡ true
      → let text = body (ops.get (node_of parse_url atoi url) [] s).1 in
        (on_request ops parse_url atoi keep_alive method_get url s).1
        ≡ content_answer keep_alive (length text) ∷ text ∷ []
  unfolding on_request
  two_messages keep_alive url s there found = rw (there, found) refl

  -- The answer to a GET that is served does not always go out in order: when no write was pending and
  -- the node has some parameter, the body can go out amid the head, behind any of its bytes.
  pub get_answer_mixes :
      (keep_alive : Bool) (url a b : Bytes) (s : S) (w : Wire)
      → addressed parse_url url ≡ true
      → (ops.get (node_of parse_url atoi url) [] s).0 ≡ true
      → (ops.get (node_of parse_url atoi url) [] s).1 ≢ []
      → content_answer keep_alive (length (body (ops.get (node_of parse_url atoi url) [] s).1))
        ≡ a ++ b
      → a ≢ []
      → b ≢ []
      → w.pending ≡ []
      → let text = body (ops.get (node_of parse_url atoi url) [] s).1 in
        Transfers
          (send_all (on_request ops parse_url atoi keep_alive method_get url s).1 w)
          (record { sent = ((w.sent ++ a) ++ text) ++ b; pending = [] })
  get_answer_mixes keep_alive url a b s w there found some_parameter split some_a some_b idle =
      let text = body (ops.get (node_of parse_url atoi url) [] s).1 in
      let messages =
        two_messages keep_alive url s there found ∙ ap (λ head. head ∷ text ∷ []) split in
      subst
        (λ l.
          Transfers (send_all l w) (record { sent = ((w.sent ++ a) ++ text) ++ b; pending = [] }))
        (sym messages)
        (two_sends_mix a b text w idle some_a some_b
          (body-ne_nil (ops.get (node_of parse_url atoi url) [] s).1 some_parameter))
