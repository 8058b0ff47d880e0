-- ===== src/Http/Headers.antt =====
-- The callbacks of class HttpChannel of src/http/HttpChannel.hpp and .cpp that the parser makes for
-- a request, and the state that they keep between them.
pub mod Chunks
use huasi.Prelude.{Bool, true, false, Option, none, some, [], ◌++◌, Bytes, if◌then◌else◌}
use huasi.Prelude.SortedMap.{bytes_key, lookup, insert}
use huasi.Http.Response.{Headers}

-- What the standard library leaves in a string and in a map after their content has been moved away.
pub record MovedFrom : Type 0 where
  pub left_string : Bytes → Bytes
  pub left_headers : Headers → Headers

pub record HttpState : Type 0 where
  pub field : Bytes
  pub value : Bytes
  pub value_valid : Bool
  pub headers : Headers
  pub url_or_status : Bytes

pub new_state : HttpState
new_state = record { field = []; value = []; value_valid = false; headers = []; url_or_status = [] }

module _ (m : MovedFrom) where
  -- `headers[std::move(field)]` takes the content of `field` only if it inserts a new entry.
  left_key : Bytes → Option Bytes → Bytes
  left_key field none = m.left_string field
  left_key field (some old) = field

  -- `moveHeader`.
  unfoldable pub move_header : HttpState → HttpState
  unfolding left_key
  move_header s =
      if s.value_valid
      then record s {
        headers = insert s.field s.value s.headers;
        field = left_key s.field (lookup s.field s.headers);
        value = m.left_string s.value;
        value_valid = false;
      }
      else s

  unfoldable pub on_url : Bytes → HttpState → HttpState
  on_url text s = record s { url_or_status = s.url_or_status ++ text }

  unfoldable pub on_header_field : Bytes → HttpState → HttpState
  unfolding move_header
  on_header_field text s = let s' = move_header s in record s' { field = s'.field ++ text }

  unfoldable pub on_header_value : Bytes → HttpState → HttpState
  on_header_value text s = record s { value_valid = true; value = s.value ++ text }

  -- The url and the headers are handed to `onRequest`.
  unfoldable pub on_headers_complete : HttpState → HttpState × Bytes × Headers
  unfolding move_header
  on_headers_complete s =
      let s' = move_header s in
      (
        record s' {
          url_or_status = m.left_string s'.url_or_status;
          headers = m.left_headers s'.headers;
        },
        s'.url_or_status,
        s'.headers,
      )
