-- ===== src/Http/Client.antt =====
-- What a client makes of the answers that src/http/HttpChannel.cpp sends, by the rules of HTTP/1.1: a
-- head of lines up to the first empty one, and then a body of as many bytes as `Content-Length` says.
-- Without that line the body ends where the connection does.
pub mod Lines
pub mod Numbers
use huasi.Prelude.{
  ℕ, zero, suc, ◌+◌, ◌-◌, ◌*◌, Option, none, some, Bool, true, false, ◌&&◌, List, [], ◌∷◌, ◌++◌,
  Bytes, codes, bytes_eq, leb, ◌==◌, if◌then◌else◌, ◌>>=◌, length, is_empty, get_or, take, drop,
}

-- The bytes before the first CR LF, and those behind it.
unfoldable pub take_line : Bytes → Option (Bytes × Bytes)
take_line [] = none
take_line (c ∷ s) =
    let longer = (do (line, rest) ← take_line s; some (c ∷ line, rest)) in
    if c == 13 && get_or s 0 0 == 10 then some ([], drop 1 s) else longer

-- The lines of a head and what is behind it, with fuel for the number of lines.
unfoldable pub read_head : ℕ → Bytes → Option (List Bytes × Bytes)
read_head zero s = none
read_head (suc fuel) s = do
  (line, rest) ← take_line s
  let more = (do (lines, behind) ← read_head fuel rest; some (line ∷ lines, behind))
  if is_empty line then some ([], rest) else more

-- The value of a header, if the line has this name.
abbrev pub value_of : Bytes → Bytes → Option Bytes
value_of name line =
    if bytes_eq (take (length name) line) name then some (drop (length name) line) else none

-- The value of the first header with this name.
unfoldable pub find : Bytes → List Bytes → Option Bytes
find name [] = none
find name (line ∷ lines) =
    let later = find name lines in elim (value_of name line) [ none ↦ later | some v ↦ some v ]

-- A decimal number, behind the digits read so far.
unfoldable pub decimal : ℕ → Bytes → ℕ
decimal n [] = n
decimal n (c ∷ s) = decimal (n * 10 + (c - b'0')) s

-- A body with what follows it on the connection, or one that ends where the connection ends.
pub data Content : Type 0 where
  sized : Bytes → Bytes → Content
  until_end : Bytes → Content

pub record Answer : Type 0 where
  pub status : Bytes
  pub closes : Bool
  pub content : Content

abbrev pub content_of : List Bytes → Bytes → Option Content
content_of headers behind = elim (find (codes "Content-Length: ") headers) [
  | none ↦ some (until_end behind)
  | some digits ↦
      let n = decimal 0 digits in
      if leb n (length behind) then some (sized (take n behind) (drop n behind)) else none
]

abbrev pub closes_of : List Bytes → Bool
closes_of headers = elim (find (codes "Connection: ") headers) [
  | none ↦ false
  | some v ↦ bytes_eq v (codes "close")
]

abbrev pub answer_of : List Bytes → Bytes → Option Answer
answer_of [] behind = none
answer_of (status ∷ headers) behind = do
  content ← content_of headers behind
  some (record { status = status; closes = closes_of headers; content = content })

-- An answer at the front of what the connection brings.
unfoldable pub read_answer : Bytes → Option Answer
read_answer s = do (lines, behind) ← read_head (suc (length s)) s; answer_of lines behind

-- The answer to a HEAD has no body, whatever its head says.
abbrev pub without_body : Content → Content
without_body (sized text rest) = sized [] (text ++ rest)
without_body (until_end rest) = sized [] rest

-- The answer to a request that was a HEAD or not.
unfoldable pub read_reply : Bool → Bytes → Option Answer
read_reply head s = do
  a ← read_answer s
  some (if head then record a { content = without_body a.content } else a)
