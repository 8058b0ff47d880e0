-- ===== src/Gateway/Handler/Messages.antt =====
-- What a client reads in the messages that the gateway sends, of src/Gateway.cpp and
-- src/http/HttpChannel.cpp.
use huasi.Prelude.{
  ℕ, ◌≡◌, refl, ◌∙◌, some, Bool, true, false, List, [], ◌∷◌, ◌++◌, arith, Bytes, append_assoc, not,
  codes, bytes_eq, length, leb, le→leb, length-append, take-append_front, drop-append_front,
  append-nil,
}
use huasi.Http.Client.{
  sized, until_end, take_line, read_head, find, decimal, answer_of, read_answer,
}
use huasi.Http.Headers.Chunks.{joined}
use huasi.Gateway.Handler.{plain_answer, not_found, content_answer}
use huasi.Cast.{print, to_text}
use huasi.Http.Response.{crlf}
use huasi.Http.Client.Lines.{is_line, lines_of, are_lines, read_answer_lem}
use huasi.Http.Client.Numbers.{decimal-to_text, to_text-is_line}

pub ok_read :
    (keep_alive : Bool) (later : Bytes)
    → read_answer (plain_answer keep_alive 200 (codes "OK") ++ later)
      ≡ some (record {
        status = codes "HTTP/1.1 200 OK";
        closes = not keep_alive;
        content = until_end later;
      })
unfolding read_answer read_head take_line find to_text print bytes_eq
ok_read true later = refl
ok_read false later = refl

pub not_found_read :
    (keep_alive : Bool) (later : Bytes)
    → read_answer (not_found keep_alive ++ later)
      ≡ some (record {
        status = codes "HTTP/1.1 404 Not Found";
        closes = not keep_alive;
        content = until_end later;
      })
unfolding read_answer read_head take_line find to_text print bytes_eq
not_found_read true later = refl
not_found_read false later = refl

-- The lines of the head of an answer with a body, which the digits of its length end.
abbrev content_lines : Bool → Bytes → List Bytes
content_lines true digits =
    codes "HTTP/1.1 200 OK"
    ∷ codes "Server: huasi"
    ∷ codes "Content-Type: application/x-www-form-urlencoded"
    ∷ (codes "Content-Length: " ++ digits)
    ∷ []
content_lines false digits =
    codes "HTTP/1.1 200 OK"
    ∷ codes "Server: huasi"
    ∷ codes "Connection: close"
    ∷ codes "Content-Type: application/x-www-form-urlencoded"
    ∷ (codes "Content-Length: " ++ digits)
    ∷ []

content_answer_lem :
    (keep_alive : Bool) (size : ℕ) (s : Bytes)
    → content_answer keep_alive size ++ s
      ≡ lines_of (content_lines keep_alive (to_text size)) (crlf ++ s)
unfolding to_text print
content_answer_lem true size s =
    rw (append_assoc (to_text size ++ crlf) crlf s, append_assoc (to_text size) crlf (crlf ++ s))
      refl
content_answer_lem false size s =
    rw (append_assoc (to_text size ++ crlf) crlf s, append_assoc (to_text size) crlf (crlf ++ s))
      refl

content_are_lines :
    (keep_alive : Bool) (digits : Bytes)
    → is_line digits ≡ true
    → are_lines (content_lines keep_alive digits) ≡ true
unfolding is_line
content_are_lines true digits h = ground (arith, h)
content_are_lines false digits h = ground (arith, h)

fits : (text later : Bytes) → leb (length text) (length (text ++ later)) ≡ true
fits text later =
    le→leb (length text) (length (text ++ later)) (omega (arith, length-append text later))

body_read :
    (keep_alive : Bool) (digits text later : Bytes)
    → decimal 0 digits ≡ length text
    → answer_of (content_lines keep_alive digits) (text ++ later)
      ≡ some (record {
        status = codes "HTTP/1.1 200 OK";
        closes = not keep_alive;
        content = sized text later;
      })
unfolding find bytes_eq
body_read true digits text later e =
    rw (e, fits text later, take-append_front text later, drop-append_front text later) refl
body_read false digits text later e =
    rw (e, fits text later, take-append_front text later, drop-append_front text later) refl

content_read :
    (keep_alive : Bool) (text later : Bytes)
    → read_answer (content_answer keep_alive (length text) ++ (text ++ later))
      ≡ some (record {
        status = codes "HTTP/1.1 200 OK";
        closes = not keep_alive;
        content = sized text later;
      })
content_read keep_alive text later =
    let digits = to_text (length text) in
    rw (content_answer_lem keep_alive (length text) (text ++ later)) (
      read_answer_lem (content_lines keep_alive digits) (text ++ later)
        (content_are_lines keep_alive digits (to_text-is_line (length text)))
      ∙ body_read keep_alive digits text later (decimal-to_text (length text)))

-- The two messages of an answer with a body, one after the other.
pub two_messages_read :
    (keep_alive : Bool) (text later : Bytes)
    → read_answer (joined (content_answer keep_alive (length text) ∷ text ∷ []) ++ later)
      ≡ some (record {
        status = codes "HTTP/1.1 200 OK";
        closes = not keep_alive;
        content = sized text later;
      })
two_messages_read keep_alive text later =
    rw (append-nil text, append_assoc (content_answer keep_alive (length text)) text later)
      (content_read keep_alive text later)
