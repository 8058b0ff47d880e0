-- ===== src/Server/Listening.antt =====
-- The server over its life.
use huasi.Prelude.{
  ℕ, zero, suc, ◌+◌, ◌<◌, ◌≡◌, refl, Bool, true, false, List, [], ◌∷◌, ◌++◌, arith, All, All-append,
}
use mathlib.Core.Path.{subst}
use huasi.Channel.{Channel}
use huasi.Channel.Lifetime.{Counts, Step-Counts, on_accept_lem, on_accept_failed_lem}
use huasi.Channel.Lifetime
use huasi.Server.{Server, connected, on_accepted, close, release, started}

-- What the event loop and the program do with a server: an accept succeeds or fails, the server is
-- closed, a pointer to it goes, and a handler of one of its channels runs. An accept can only succeed
-- while the acceptor is open.
pub data Step (s : Server) : Server → Type 0 where
  accepted : 0 < s.accepts → s.is_open ≡ true → Step s (on_accepted false s)
  accept_failed : 0 < s.accepts → Step s (on_accepted true s)
  closed : (failed : Bool) → Step s (close failed s)
  released : 0 < s.held → Step s (release s)
  in_channel :
      (before after : List Channel) (c d : Channel)
      → s.channels ≡ before ++ c ∷ after
      → Lifetime.Step c d
      → Step s (record s { channels = before ++ d ∷ after })

pub data Reach (s : Server) : Server → Type 0 where
  here : Reach s s
  next : {t u : Server} → Reach s t → Step t u → Reach s u

-- One accept is in flight. The server has a reference for it and one for each pointer, and each
-- channel counts its own references.
pub record IsListening (s : Server) : Type 0 where
  pub one_accept : s.accepts ≡ 1
  pub counted : s.references ≡ s.held + 1
  pub alive : s.deleted ≡ false
  pub channels_count : All (Counts 0) s.channels

connected_channels :
    (failed : Bool) (s : Server)
    → All (Counts 0) s.channels
    → All (Counts 0) (connected failed s).channels
unfolding connected
connected_channels true s v = All-append (Counts 0) s.channels _ v (on_accept_failed_lem, tt)
connected_channels false s v = All-append (Counts 0) s.channels _ v (on_accept_lem, tt)

connected_same :
    (failed : Bool) (s : Server)
    → let t = connected failed s in
      (t.accepts ≡ s.accepts)
      × (t.references ≡ s.references)
      × (t.deleted ≡ s.deleted)
      × (t.held ≡ s.held)
unfolding connected
connected_same true s = (refl, refl, refl, refl)
connected_same false s = (refl, refl, refl, refl)

on_accepted-IsListening :
    (failed : Bool) (s : Server) → IsListening s → IsListening (on_accepted failed s)
unfolding on_accepted
on_accepted-IsListening failed s v =
    ground (arith, connected_same failed s, connected_channels failed s v.channels_count)

All-replaced :
    (before after : List Channel) (c d : Channel)
    → (Counts 0 c → Counts 0 d)
    → All (Counts 0) (before ++ c ∷ after)
    → All (Counts 0) (before ++ d ∷ after)
All-replaced [] after c d step (v, vs) = (step v, vs)
All-replaced (x ∷ before) after c d step (v, vs) = (v, All-replaced before after c d step vs)

Step-IsListening : {s t : Server} → Step s t → IsListening s → IsListening t
unfolding close release
Step-IsListening {s} (accepted waits opened) v = on_accepted-IsListening false s v
Step-IsListening {s} (accept_failed waits) v = on_accepted-IsListening true s v
Step-IsListening {s} (closed failed) v = ground arith
Step-IsListening {s} (released some_held) v = ground arith
Step-IsListening {s} (in_channel before after c d e step) v = record {
  one_accept = v.one_accept;
  counted = v.counted;
  alive = v.alive;
  channels_count =
      All-replaced before after c d (Step-Counts step) (subst (All (Counts 0)) e v.channels_count);
}

started-IsListening : IsListening started
unfolding started
started-IsListening = ground arith

Reach-IsListening : {s : Server} → Reach started s → IsListening s
Reach-IsListening here = started-IsListening
Reach-IsListening (next r step) = Step-IsListening step (Reach-IsListening r)

-- In every state that the event loop and the program bring about from the start of the program: one
-- accept is in flight; the server has one reference for it and one for each pointer, and is not
-- deleted, also when it is closed and no pointer is left; and each channel, accepted or not, counts
-- its references, so that it is deleted exactly when it has none.
pub reached_server_listens :
    (s : Server)
    → Reach started s
    → (s.accepts ≡ 1)
      × (s.references ≡ s.held + 1)
      × (s.deleted ≡ false)
      × All (Counts 0) s.channels
reached_server_listens s r =
    let v = Reach-IsListening r in (v.one_accept, v.counted, v.alive, v.channels_count)

-- The handler runs as often, each time for an accept that failed.
pub fail_times : ℕ → Server → Server
fail_times zero s = s
fail_times (suc n) s = fail_times n (on_accepted true s)

fail_once :
    (s : Server)
    → IsListening s
    → let t = on_accepted true s in (t.errors ≡ s.errors + 1) × (t.is_open ≡ s.is_open)
unfolding on_accepted connected
fail_once s v = ground arith

spins :
    (n : ℕ) (s : Server)
    → IsListening s
    → let t = fail_times n s in
      (t.errors ≡ s.errors + n) × (t.accepts ≡ 1) × (t.is_open ≡ s.is_open) × (t.deleted ≡ false)
unfolding fail_times
spins zero s v = ground arith
spins (suc n) s v =
    let once = fail_once s v in
    let more = spins n (on_accepted true s) (on_accepted-IsListening true s v) in ground arith

close_closed : (failed : Bool) (s : Server) → (close failed s).is_open ≡ false
unfolding close
close_closed failed s = refl

-- A server that is closed reports error after error: every accept that fails is followed by another
-- one in flight, and the server is never deleted.
pub closed_server_spins :
    (n : ℕ) (failed : Bool) (s : Server)
    → Reach started s
    → let t = fail_times n (close failed s) in
      (t.errors ≡ (close failed s).errors + n)
      × (t.accepts ≡ 1)
      × (t.is_open ≡ false)
      × (t.deleted ≡ false)
closed_server_spins n failed s r =
    let more = spins n (close failed s) (Step-IsListening (closed failed) (Reach-IsListening r)) in
    let stays = close_closed failed s in ground arith
