-- ===== src/Http/Url.antt =====
-- class Url of src/http/Url.hpp, over the fields that `http_parser_parse_url` finds.
pub mod Origin
use huasi.Prelude.{ℕ, zero, suc, ◌+◌, ◌/◌, ◌%◌, ◌-◌, Bool, Bytes, ◌==◌, take, drop, ◌^◌}

-- `field_data[i]`.
pub record Field : Type 0 where
  pub off : ℕ
  pub len : ℕ

pub record ParsedUrl : Type 0 where
  pub field_set : ℕ
  pub port : ℕ
  pub field_data : ℕ → Field

pub record Url : Type 0 where
  pub url : Bytes
  pub parsed : ParsedUrl

-- The constructor; the argument is the parser.
abbrev pub new_url : (Bytes → ParsedUrl) → Bytes → Url
new_url parse_url url = record { url = url; parsed = parse_url url }

abbrev uf_schema : ℕ
uf_schema = 0

abbrev uf_host : ℕ
uf_host = 1

abbrev pub uf_path : ℕ
uf_path = 3

abbrev pub uf_query : ℕ
uf_query = 4

abbrev uf_fragment : ℕ
uf_fragment = 5

abbrev uf_userinfo : ℕ
uf_userinfo = 6

-- `substr`, for an offset within the text.
abbrev substr : Bytes → ℕ → ℕ → Bytes
substr s off len = take len (drop off s)

-- `hasSchema` and the others: the bit of a field.
abbrev pub has_field : ℕ → Url → Bool
has_field i u = u.parsed.field_set / 2 ^ i % 2 == 1

-- `getPath` and the others.
abbrev pub get_field : ℕ → Url → Bytes
get_field i u = substr u.url (u.parsed.field_data i).off (u.parsed.field_data i).len

abbrev pub get_port : Url → ℕ
get_port u = u.parsed.port

unfoldable pub get_path : Url → Bytes
get_path = get_field uf_path

unfoldable pub get_query : Url → Bytes
get_query = get_field uf_query

abbrev get_schema : Url → Bytes
get_schema = get_field uf_schema

abbrev get_host : Url → Bytes
get_host = get_field uf_host

abbrev get_fragment : Url → Bytes
get_fragment = get_field uf_fragment

abbrev get_userinfo : Url → Bytes
get_userinfo = get_field uf_userinfo

-- `uint16_t(-len) >> 15`.
abbrev sign_bit : ℕ → ℕ
sign_bit len = (65536 - len) % 65536 / 2 ^ 15

-- Path and query for use in a request.
pub get_origin : Url → Bytes
get_origin u =
    let f = u.parsed.field_data uf_path in
    let g = u.parsed.field_data uf_query in substr u.url f.off (f.len + g.len + sign_bit g.len)
