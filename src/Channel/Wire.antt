-- ===== src/Channel/Wire.antt =====
-- The bytes that `Channel::sendData` of src/Channel.cpp hands to `asio::async_write`. Such a write
-- consists of several writes to the socket, and those of two calls may alternate: src/asio/write.hpp
-- asks the program for no second call before the first has completed.
pub mod Order
use huasi.Prelude.{◌≡◌, ◌≢◌, List, [], ◌∷◌, ◌++◌, Bytes}

-- What went out, and what each call still has to write, the oldest call first.
pub record Wire : Type 0 where
  pub sent : Bytes
  pub pending : List Bytes

-- `sendData`: the data is copied, and one more write is pending.
unfoldable pub send_data : Bytes → Wire → Wire
send_data bytes w = record w { pending = w.pending ++ bytes ∷ [] }

unfoldable pub send_all : List Bytes → Wire → Wire
unfolding send_data
send_all [] w = w
send_all (bytes ∷ rest) w = send_all rest (send_data bytes w)

-- The socket takes some bytes of a write, or a write has written all and its handler runs.
pub data Transfer (w : Wire) : Wire → Type 0 where
  takes :
      (before after : List Bytes) (part rest : Bytes)
      → part ≢ []
      → w.pending ≡ before ++ (part ++ rest) ∷ after
      → Transfer w (record { sent = w.sent ++ part; pending = before ++ rest ∷ after })
  completes :
      (before after : List Bytes)
      → w.pending ≡ before ++ [] ∷ after
      → Transfer w (record w { pending = before ++ after })

pub data Transfers (w : Wire) : Wire → Type 0 where
  still : Transfers w w
  then_transfer : {u v : Wire} → Transfers w u → Transfer u v → Transfers w v

-- Messages are sent, each one only when no write is pending.
pub data SentAlone (w : Wire) : List Bytes → Wire → Type 0 where
  none_sent : {u : Wire} → Transfers w u → SentAlone w [] u
  then_sent :
      {messages : List Bytes} {u v : Wire} (bytes : Bytes)
      → SentAlone w messages u
      → u.pending ≡ []
      → Transfers (send_data bytes u) v
      → SentAlone w (messages ++ bytes ∷ []) v
