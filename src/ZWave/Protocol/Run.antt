-- ===== src/ZWave/Protocol/Run.antt =====
-- The protocol over its life: the constructor, and then requests, reads and timeouts in any order. A
-- timeout and its handler are one step here; in Port.antt the handler may run late.
use huasi.Prelude.{refl, ◌+◌, ◌≤◌, ◌≡◌, false, [], some, arith, Bytes, length}
use mathlib.Core.Path.{subst}
use huasi.ZWave.Request.{Request}
use huasi.ZWave.Protocol.{Protocol, Handlers, send_request, time_passes}
use huasi.ZWave.Protocol.Queue.{IsSound, send_request-IsSound, time_passes-IsSound}
use huasi.ZWave.Protocol.Receive.{on_read}
use huasi.ZWave.Protocol.Receive.Total.{on_read_total}

-- The state that the constructor leaves. The buffer is not initialised: its content is arbitrary.
unfoldable pub started : {N : Type 0} → Bytes → N → Protocol N
started memory network = record {
  asked = [];
  requests = [];
  tx_retry_count = 0;
  next_func_id = 1;
  timer = false;
  rx_position = 0;
  rx_buffer = memory;
  log = [];
  faulted = false;
  network = network;
}

pub started_idle :
    {N : Type 0} (memory : Bytes) (network : N)
    → ((started memory network).requests ≡ []) × ((started memory network).rx_position ≡ 0)
unfolding started
started_idle memory network = (refl, refl)

pub started_network :
    {N : Type 0} (memory : Bytes) (network : N) → (started memory network).network ≡ network
unfolding started
started_network memory network = refl

module _ {N : Type 0} (h : Handlers N) where
  -- A read gives no more bytes than there is room for.
  pub data Step (p : Protocol N) : Protocol N → Type 0 where
    submit : (r : Request) → Step p (send_request r p)
    receive :
        {q : Protocol N} (bytes : Bytes)
        → p.rx_position + length bytes ≤ 256
        → on_read h bytes p ≡ some q
        → Step p q
    expire : Step p (time_passes p)

  pub data Reach (p : Protocol N) : Protocol N → Type 0 where
    here : Reach p p
    next : {q r : Protocol N} → Reach p q → Step q r → Reach p r

  pub Step-IsSound : {p q : Protocol N} → Step p q → IsSound p → IsSound q
  Step-IsSound {p} (submit r) v = send_request-IsSound r p v
  Step-IsSound {p} {q} (receive bytes room e) v =
      let (q', e', w, _) = on_read_total h bytes p v room in
      let same : q' ≡ q = cc in subst IsSound same w
  Step-IsSound {p} expire v = time_passes-IsSound p v

  pub started-IsSound :
      (memory : Bytes) (network : N) → length memory ≡ 256 → IsSound (started memory network)
  unfolding started
  started-IsSound memory network size = ground arith

  Reach-IsSound : {p q : Protocol N} → IsSound p → Reach p q → IsSound q
  Reach-IsSound v here = v
  Reach-IsSound v (next r s) = Step-IsSound s (Reach-IsSound v r)

  -- As long as each handler of the timer runs as soon as its timer has run out: in every state that
  -- the constructor, requests, reads and timeouts bring about, in any order, the queue was never asked
  -- for a request that it does not hold, the timer runs only while a request waits, fewer than three attempts are counted, the next
  -- id is between 1 and 255, and the position lies within the buffer.
  pub reached-IsSound :
      (memory : Bytes) (network : N) (q : Protocol N)
      → length memory ≡ 256
      → Reach (started memory network) q
      → IsSound q
  reached-IsSound memory network q size r = Reach-IsSound (started-IsSound memory network size) r
