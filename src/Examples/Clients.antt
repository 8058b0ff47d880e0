-- ===== src/Examples/Clients.antt =====
-- Answers of the gateway, and what goes over the wire.
use huasi.Prelude.{
  Bytes, ◌≡◌, ◌≢◌, refl, ap, true, false, some, [], ◌∷◌, ◌++◌, codes, bytes_eq, bytes_lt, length,
  take, drop, arith,
}
use huasi.Http.Url.{get_path}
use huasi.Http.Headers.Chunks.{joined}
use huasi.Http.Client.{sized, read_reply}
use huasi.Gateway.Query.{body}
use huasi.Channel.Wire.{
  send_data, send_all, Transfers, still, then_transfer, takes, completes, none_sent, then_sent,
}
use huasi.Channel.Wire.Order.{alone_in_order}
use huasi.Gateway.Handler.Mixing.{get_answer_mixes}
use huasi.Gateway.Handler.{content_answer, method_get, not_found, on_request}
use huasi.Gateway.Handler.ZWaveOps.{zwave_ops}
use huasi.Gateway.Handler.Reading.{answers_read}
use huasi.ZWave.Command.{get}
use huasi.ZWave.Classes.{basic_get}
use huasi.Parameters.{set_byte}
use huasi.Prelude.SortedMap.{insert}
use huasi.ZWave.Network.{network_get}
use huasi.Examples.Web.{parse_path, one_digit, dimmer}

-- The answer to a GET, with another answer behind it.
abbrev received : Bytes
received =
    joined
      (on_request (zwave_ops 0) parse_path one_digit true method_get (codes "/node/3") dimmer).1
    ++ not_found true

answers_read_example :
    read_reply false received
    ≡ some (record {
      status = codes "HTTP/1.1 200 OK";
      closes = false;
      content = sized (body (network_get 3 [] dimmer.network).1) (not_found true);
    })
unfolding get_path bytes_eq network_get
answers_read_example =
    answers_read (zwave_ops 0) parse_path one_digit true false method_get (codes "/node/3") dimmer
      (not_found true) received tt refl

named_lem : (network_get 3 [] dimmer.network).1 ≢ []
unfolding network_get get basic_get set_byte insert bytes_lt bytes_eq
named_lem e = omega (arith, ap length e)

get_answer_mixes_example :
    let text = body (network_get 3 [] dimmer.network).1 in
    let head = content_answer true (length text) in
    Transfers
      (send_all
        (on_request (zwave_ops 0) parse_path one_digit true method_get (codes "/node/3") dimmer).1
        (record { sent = []; pending = [] }))
      (record { sent = (take 1 head ++ text) ++ drop 1 head; pending = [] })
unfolding get_path bytes_eq network_get
get_answer_mixes_example =
    let text = body (network_get 3 [] dimmer.network).1 in
    let head = content_answer true (length text) in
    get_answer_mixes (zwave_ops 0) parse_path one_digit true (codes "/node/3") (take 1 head)
      (drop 1 head) dimmer (record { sent = []; pending = [] }) refl refl named_lem refl (λ e. cc)
      (λ e. cc) refl

-- Two messages on a wire, the second behind the end of the first.
alone_in_order_example : codes "ab" ++ [] ≡ [] ++ joined (codes "a" ∷ codes "b" ∷ [])
unfolding send_data
alone_in_order_example =
    alone_in_order (record { sent = []; pending = [] }) _ (codes "a" ∷ codes "b" ∷ []) refl
      (then_sent (codes "b")
        (then_sent (codes "a") (none_sent still) refl (
          then_transfer (then_transfer still (takes [] [] (codes "a") [] (λ e. cc) refl))
            (completes [] [] refl)))
        refl
        (then_transfer (then_transfer still (takes [] [] (codes "b") [] (λ e. cc) refl))
          (completes [] [] refl)))
