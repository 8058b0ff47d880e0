-- ===== src/Examples/Web.antt =====
-- Requests over HTTP.
use huasi.Gateway.Query.Inverse.{parse_query-body}
use huasi.Prelude.SortedMap.Order.{IsSorted}
use huasi.Prelude.{
  ℕ, ◌≡◌, ◌-◌, refl, false, [], ◌∷◌, arith, Bytes, codes, length, get_or, ◌==◌, if◌then◌else◌, All,
  bytes_lt,
}
use huasi.Prelude.SortedMap.{bytes_key}
use huasi.Parameters.{Parameters}
use huasi.Gateway.Query.{parse_query, body}
use huasi.Gateway.Query.RoundTrip.{IsClean}
use huasi.Http.Url.{ParsedUrl}
use huasi.Http.Headers.{MovedFrom}
use huasi.Http.Headers.Chunks.{Pieces, LeavesEmpty}
use huasi.ZWave.Classes.{basic_class}
use huasi.ZWave.Command.{basic}
use huasi.ZWave.Protocol.{Protocol}
use huasi.ZWave.Network.{Network}

abbrev values : Parameters
values = (codes "d", codes "50") ∷ (codes "n", codes "a b") ∷ []

values-IsClean : All IsClean values
values-IsClean = (
  (((omega arith, omega arith), tt), (omega arith, (omega arith, tt))),
  ((((omega arith, omega arith), tt), (omega arith, (omega arith, (omega arith, tt)))), tt),
)

-- A parser and an `atoi` for urls that are a path with one digit behind the prefix.
abbrev pub parse_path : Bytes → ParsedUrl
parse_path url = record {
  field_set = 8;
  port = 0;
  field_data = λ i. record { off = 0; len = if i == 3 then length url else 0 };
}

abbrev pub one_digit : Bytes → ℕ
one_digit s = get_or s 0 0 - b'0'

abbrev pub dimmer : Protocol Network
dimmer = record {
  asked = [];
  requests = [];
  tx_retry_count = 0;
  next_func_id = 1;
  timer = false;
  rx_position = 0;
  rx_buffer = [];
  log = [];
  faulted = false;
  network = record {
    nodes = λ i. record {
      device_name = [];
      name = codes "lamp";
      commands = if i == 3 then (basic_class, basic 50) ∷ [] else [];
    };
    overrun = false;
  };
}

abbrev pub emptied : MovedFrom
emptied = record { left_string = λ s. []; left_headers = λ h. [] }

pub emptied-LeavesEmpty : LeavesEmpty emptied
emptied-LeavesEmpty = record { string_empty = λ s. refl; headers_empty = λ h. refl }

abbrev pub host : Pieces
host = record {
  name_first = codes "Ho";
  name_more = codes "st" ∷ [];
  value_first = codes "x";
  value_more = [];
}

values-IsSorted : IsSorted values
unfolding bytes_lt
values-IsSorted = ((refl, tt), (tt, tt))

parse_query-body_example : parse_query (body values) ≡ values
parse_query-body_example = parse_query-body values values-IsClean values-IsSorted
