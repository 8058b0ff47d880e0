-- ===== src/ZWave/Protocol/Line.antt =====
-- The protocol of src/zwave/ZWaveProtocol.cpp as the line of Line.antt, without timers, buffers,
-- retry counts and ids.
pub mod Sending
use huasi.Prelude.{ℕ, ◌≡◌, ◌⊎◌, [], ◌∷◌, map}
use huasi.ZWave.Request.{Request}
use huasi.ZWave.Frame.{ack, nack, with_func_id, tx_frame}
use huasi.ZWave.Protocol.{Output, write, on_error, Protocol}
use huasi.Line.{Line, Speech}

-- A request without its id.
abbrev pub nameless : Request → Request
nameless = with_func_id 0

-- The frame of the first request is written, with an id; a frame of the controller is acknowledged
-- or rejected.
abbrev pub speech : Speech Request Output
speech = record {
  name = nameless;
  Sends = λ r o. (id : ℕ) × (o ≡ write (tx_frame (with_func_id id r)));
  Answers = λ r o. o ≡ write (ack ∷ []);
  drops = on_error;
  Other = λ o. (o ≡ write (ack ∷ [])) ⊎ (o ≡ write (nack ∷ []));
}

abbrev pub view : {N : Type 0} → Protocol N → Line Request Output
view p = record { asked = map nameless p.asked; waiting = map nameless p.requests; log = p.log }
