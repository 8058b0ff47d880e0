-- ===== src/Http/Response.antt =====
-- class HttpChannel::Response of src/http/HttpChannel.hpp and .cpp: the text of a status line and of
-- headers.
use huasi.Prelude.{ℕ, [], ◌∷◌, ◌++◌, Bytes, codes}
use huasi.Prelude.SortedMap.{SortedMap}
use huasi.Cast.{to_text}

abbrev pub Headers : Type 0
Headers = SortedMap Bytes Bytes

abbrev pub crlf : Bytes
crlf = 13 ∷ 10 ∷ []

-- The constructor. A number is printed in decimal.
abbrev pub new_response : ℕ → Bytes → Bytes
new_response status message =
    codes "HTTP/1.1 " ++ (to_text status ++ (codes " " ++ (message ++ crlf)))

abbrev pub add_header : Bytes → Bytes → Bytes → Bytes
add_header key value s = s ++ (key ++ (codes ": " ++ (value ++ crlf)))

abbrev pub add_headers : Headers → Bytes → Bytes
add_headers [] s = s
add_headers ((key, value) ∷ rest) s =
    add_headers rest (s ++ (key ++ (codes ": " ++ (value ++ crlf))))

abbrev pub add_close : Bytes → Bytes
add_close s = s ++ (codes "Connection: close" ++ crlf)

abbrev pub add_content : Bytes → ℕ → Bytes → Bytes
add_content content_type content_length s =
    (s ++ (codes "Content-Type: " ++ (content_type ++ crlf)))
    ++ (codes "Content-Length: " ++ (to_text content_length ++ crlf))

-- `sendResponse`: the text that is handed to `sendData`.
abbrev pub response_text : Bytes → Bytes
response_text s = s ++ crlf
