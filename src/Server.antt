-- ===== src/Server.antt =====
-- class Server of src/Server.hpp and .cpp over its channels: the acceptor, the references of the
-- server itself, and the channels whose handler of `async_accept` has run.
pub mod Listening
use huasi.Prelude.{ℕ, ◌+◌, ◌-◌, ◌==◌, Bool, true, false, List, [], ◌∷◌, ◌++◌, if◌then◌else◌}
use huasi.Channel.{Channel, created, on_accept, on_accept_failed}

-- `held` counts the `ptr`s to the server, `accepts` the calls of `async_accept` whose handler has not
-- run, each with a new channel, and `errors` the calls of `onError`.
pub record Server : Type 0 where
  pub references : ℕ
  pub deleted : Bool
  pub held : ℕ
  pub is_open : Bool
  pub accepts : ℕ
  pub channels : List Channel
  pub errors : ℕ

unfoldable pub remove_reference : Server → Server
remove_reference s =
    if s.references == 1
    then record s { references = 0; deleted = true }
    else record s { references = s.references - 1 }

-- The channel that `createChannel` makes waits in the handler.
unfoldable pub listen : Server → Server
listen s = record s { references = s.references + 1; accepts = s.accepts + 1 }

-- What the handler of `async_accept` does with the channel, for an error and for none.
unfoldable pub connected : Bool → Server → Server
connected true s = record s {
  errors = s.errors + 1;
  channels = s.channels ++ on_accept_failed created ∷ [];
}
connected false s = record s { channels = s.channels ++ on_accept created ∷ [] }

-- The whole handler.
unfoldable pub on_accepted : Bool → Server → Server
unfolding connected listen remove_reference
on_accepted failed s =
    let s' = listen (connected failed s) in
    remove_reference (record s' { accepts = s'.accepts - 1 })

-- `close`, for an acceptor that closes with an error and for one that closes with none.
unfoldable pub close : Bool → Server → Server
close failed s = record s { is_open = false; errors = if failed then s.errors + 1 else s.errors }

-- A `ptr` to the server goes away.
unfoldable pub release : Server → Server
unfolding remove_reference
release s = remove_reference (record s { held = s.held - 1 })

-- `main`: the server, held by a `ptr`, listens.
unfoldable pub started : Server
unfolding listen
started = listen (record {
  references = 1;
  deleted = false;
  held = 1;
  is_open = true;
  accepts = 0;
  channels = [];
  errors = 0;
})
