-- ===== src/Gateway/Handler/Reading.antt =====
-- What a client reads in the gateway's answers.
use huasi.Prelude.{
  ℕ, ◌≡◌, refl, some, Bool, true, false, [], ◌++◌, arith, Bytes, not, ◌&&◌, codes, append-nil,
  if◌then◌else◌, Bool-cases, inl, inr,
}
use huasi.Http.Client.{Answer, sized, until_end, read_answer, read_reply}
use huasi.Http.Url.{ParsedUrl}
use huasi.Http.Headers.Chunks.{joined}
use huasi.Gateway.Query.{body}
use huasi.Gateway.Handler.{
  NetworkOps, Method, method_get, method_post, method_other, plain_answer, not_found, addressed,
  node_of, on_request,
}
use huasi.Gateway.Handler.Answers.{accepts, on_request_not_served}
use huasi.Gateway.Handler.Messages.{ok_read, not_found_read, two_messages_read}

module _ {S : Type 0} (ops : NetworkOps S) (parse_url : Bytes → ParsedUrl) (atoi : Bytes → ℕ) where
  -- The answer that the client gets: 200 with the parameters of the node to a GET, 200 to a POST, or
  -- 404. Only the first has a body of a length that is named.
  abbrev pub served : Bool → Method → Bytes → S → Bytes → Answer
  served keep_alive method_get url s later = record {
    status = codes "HTTP/1.1 200 OK";
    closes = not keep_alive;
    content = sized (body (ops.get (node_of parse_url atoi url) [] s).1) later;
  }
  served keep_alive method url s later = record {
    status = codes "HTTP/1.1 200 OK";
    closes = not keep_alive;
    content = until_end later;
  }

  abbrev pub expected : Bool → Method → Bytes → S → Bytes → Answer
  expected keep_alive method url s later =
      if addressed parse_url url && accepts ops parse_url atoi method url s
      then served keep_alive method url s later
      else record {
        status = codes "HTTP/1.1 404 Not Found";
        closes = not keep_alive;
        content = until_end later;
      }

  served_read :
      (keep_alive : Bool) (method : Method) (url : Bytes) (s : S) (later : Bytes)
      → addressed parse_url url ≡ true
      → accepts ops parse_url atoi method url s ≡ true
      → read_answer (joined (on_request ops parse_url atoi keep_alive method url s).1 ++ later)
        ≡ some (served keep_alive method url s later)
  unfolding on_request
  served_read keep_alive method_get url s later there found =
      rw (there, found)
        (two_messages_read keep_alive (body (ops.get (node_of parse_url atoi url) [] s).1) later)
  served_read keep_alive method_post url s later there found =
      rw (there, found, append-nil (plain_answer keep_alive 200 (codes "OK")))
        (ok_read keep_alive later)
  served_read keep_alive method_other url s later there found = absurd (ground arith)

  refused_read :
      (keep_alive : Bool) (method : Method) (url : Bytes) (s : S) (later : Bytes)
      → (addressed parse_url url && accepts ops parse_url atoi method url s) ≡ false
      → read_answer (joined (on_request ops parse_url atoi keep_alive method url s).1 ++ later)
        ≡ some (record {
          status = codes "HTTP/1.1 404 Not Found";
          closes = not keep_alive;
          content = until_end later;
        })
  refused_read keep_alive method url s later refused =
      rw
        (
          on_request_not_served ops parse_url atoi keep_alive method url s refused,
          append-nil (not_found keep_alive),
        )
        (not_found_read keep_alive later)

  delivered_read :
      (keep_alive : Bool) (method : Method) (url : Bytes) (s : S) (later : Bytes)
      → read_answer (joined (on_request ops parse_url atoi keep_alive method url s).1 ++ later)
        ≡ some (expected keep_alive method url s later)
  delivered_read keep_alive method url s later =
      let there = addressed parse_url url in
      let accepted = accepts ops parse_url atoi method url s in
      elim (Bool-cases (there && accepted)) [
        | inl granted ↦
            rw granted (served_read keep_alive method url s later (ground arith) (ground arith))
        | inr refused ↦ rw refused (refused_read keep_alive method url s later refused)
      ]

  -- A HEAD is a request with another method than GET and POST.
  abbrev pub IsSentAs : Bool → Method → Type 0
  IsSentAs false method = Unit {0}
  IsSentAs true method_get = ⊥
  IsSentAs true method_post = ⊥
  IsSentAs true method_other = Unit {0}

  -- What the client reads of the answer to a HEAD: no body.
  abbrev pub to_head : Bool → Bytes → Answer
  to_head keep_alive later = record {
    status = codes "HTTP/1.1 404 Not Found";
    closes = not keep_alive;
    content = sized [] later;
  }

  -- Whatever the request and the state: a client that has received the texts of the answer one after
  -- the other, as they were handed to sendData, and reads them by the rules of HTTP/1.1 gets the status,
  -- and learns that the connection is closed exactly when the request does not keep it alive. To a GET
  -- that is served it gets the parameters of the node as the whole body, and what follows on the
  -- connection is left for the next answer. A HEAD is not found, and has no body. In every other case
  -- the answer names no length, so that everything that follows on the connection is read as its body.
  pub answers_read :
      (keep_alive head : Bool) (method : Method) (url : Bytes) (s : S) (later received : Bytes)
      → IsSentAs head method
      → received ≡ joined (on_request ops parse_url atoi keep_alive method url s).1 ++ later
      → read_reply head received
        ≡ some (if head then to_head keep_alive later else expected keep_alive method url s later)
  unfolding read_reply
  answers_read keep_alive false method url s later received plain e =
      rw (e, delivered_read keep_alive method url s later) refl
  answers_read keep_alive true method_get url s later received plain e = absurd plain
  answers_read keep_alive true method_post url s later received plain e = absurd plain
  answers_read keep_alive true method_other url s later received plain e =
      rw (e, delivered_read keep_alive method_other url s later) (ground arith)
