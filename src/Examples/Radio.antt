-- ===== src/Examples/Radio.antt =====
-- Runs of the EnOcean protocol.
use huasi.EnOcean.Protocol.Damage.{with_body, enocean_on_read_altered}
use huasi.EnOcean.Protocol.Run.{IsWell, here, next, submit, expire}
use huasi.EnOcean.Network.Life.{enocean_reached-IsWell}
use huasi.Prelude.{
  ◌≡◌, ◌≤◌, ◌⊎◌, inr, refl, some, true, false, [], ◌∷◌, arith, Bytes, length, get_or, take,
}
use huasi.EnOcean.Crc.{crc8_table}
use huasi.EnOcean.Crc.Polynomial.{divided, crc8_table-divided}
use huasi.EnOcean.Protocol.{
  Request, Protocol, tx_frame, is_partial, on_read, on_request, on_response, response, time_passes,
  send_request,
}
use huasi.EnOcean.Protocol.Queue.{IsSound}
use huasi.EnOcean.Protocol.Receive.{enocean_on_read_total}
use huasi.EnOcean.Protocol.Framing.{Fits}
use huasi.EnOcean.Protocol.Delivery.{enocean_on_read_frame, enocean_on_read_response}
use huasi.EnOcean.Network.{started, common_command_request, rd_idbase}

abbrev query : Request
query = common_command_request rd_idbase

abbrev with_received : Bytes → Protocol
with_received rx = record {
  asked = query ∷ [];
  requests = query ∷ [];
  tx_retry_count = 0;
  timer = true;
  received = rx;
  log = [];
  faulted = false;
}

abbrev waiting : Protocol
waiting = with_received []

waiting-IsSound : IsSound waiting
waiting-IsSound = record { no_fault = refl; armed = inr (λ e. cc); retry_bound = omega arith }

-- A telegram of one byte.
abbrev telegram : Request
telegram = record { packet_type = 1; content = 0xf6 ∷ []; optional_content = [] }

telegram-Fits : Fits telegram
telegram-Fits = record { content_bound = omega arith; optional_bound = omega arith }

crc8_table-divided_example : get_or crc8_table 0x55 0 ≡ divided 0x55
crc8_table-divided_example = crc8_table-divided 0x55 (omega arith)

enocean_on_read_total_example :
    (q : Protocol) × (on_read (0x55 ∷ 0 ∷ []) waiting ≡ some q)
    × IsSound q
    × ((length q.received ≤ 6) ⊎ (is_partial q.received ≡ true))
enocean_on_read_total_example = enocean_on_read_total (0x55 ∷ 0 ∷ []) waiting waiting-IsSound

enocean_on_read_frame_example :
    (bytes optional : Bytes) × (on_read (tx_frame telegram) waiting
      ≡ some (record waiting {
        timer = false;
        tx_retry_count = 0;
        received = [];
        log = on_request 1 bytes 1 optional 0 ∷ [];
      }))
    × (take 1 bytes ≡ 0xf6 ∷ [])
    × (take 0 optional ≡ [])
enocean_on_read_frame_example =
    enocean_on_read_frame telegram waiting telegram-Fits refl (inr (λ e. absurd (omega arith)))

-- The controller answers that all is well.
abbrev answer : Request
answer = record { packet_type = response; content = 0 ∷ []; optional_content = [] }

enocean_on_read_response_example :
    (bytes optional : Bytes) × (on_read (tx_frame answer) waiting
      ≡ some (record waiting {
        requests = [];
        timer = false;
        tx_retry_count = 0;
        received = [];
        log = on_response query bytes 1 optional 0 ∷ [];
      }))
    × (take 1 bytes ≡ 0 ∷ [])
    × (take 0 optional ≡ [])
enocean_on_read_response_example =
    enocean_on_read_response answer query [] waiting
      (record { content_bound = omega arith; optional_bound = omega arith }) refl refl refl

-- Its byte is 0xf6, and 0xf7 arrives.
enocean_on_read_altered_example : on_read (with_body telegram (0xf7 ∷ [])) waiting ≡ some waiting
enocean_on_read_altered_example =
    enocean_on_read_altered telegram [] [] 0xf6 0xf7 waiting telegram-Fits refl tt tt (omega arith)
      (omega arith) (omega arith) refl

enocean_reached-IsWell_example : IsWell (time_passes (send_request telegram started))
enocean_reached-IsWell_example =
    enocean_reached-IsWell (time_passes (send_request telegram started))
      (next (next here (submit telegram)) expire)
