-- ===== src/Http/Headers/Chunks.antt =====
-- The parser hands texts over in pieces. What the channel makes of them.
pub mod Whole
use huasi.Prelude.{
  ◌≡◌, refl, sym, ◌∙◌, ap, true, false, none, some, List, [], ◌∷◌, ◌++◌, append_assoc, append-nil,
  arith, Bytes,
}
use huasi.Prelude.SortedMap.{bytes_key, lookup, insert}
use huasi.Http.Response.{Headers}
use huasi.Http.Headers.{
  MovedFrom, HttpState, new_state, move_header, on_url, on_header_field, on_header_value,
  on_headers_complete,
}

-- The pieces of a header: one or more of the name, and then one or more of the value.
pub record Pieces : Type 0 where
  pub name_first : Bytes
  pub name_more : List Bytes
  pub value_first : Bytes
  pub value_more : List Bytes

abbrev pub joined : List Bytes → Bytes
joined [] = []
joined (c ∷ cs) = c ++ joined cs

abbrev pub name_of : Pieces → Bytes
name_of h = h.name_first ++ joined h.name_more

abbrev pub value_of : Pieces → Bytes
value_of h = h.value_first ++ joined h.value_more

-- All headers put into a map, in their order.
abbrev pub add_all : List Pieces → Headers → Headers
add_all [] headers = headers
add_all (h ∷ hs) headers = add_all hs (insert (name_of h) (value_of h) headers)

-- No name is there already when its header is added.
abbrev pub FreshIn : Headers → List Pieces → Type 0
FreshIn headers [] = Unit {0}
FreshIn headers (h ∷ hs) =
    (lookup (name_of h) headers ≡ none) × FreshIn (insert (name_of h) (value_of h) headers) hs

-- The library leaves a moved string and a moved map empty.
pub record LeavesEmpty (m : MovedFrom) : Type 0 where
  pub string_empty : (s : Bytes) → m.left_string s ≡ []
  pub headers_empty : (h : Headers) → m.left_headers h ≡ []

module _ (m : MovedFrom) where
  unfoldable pub feed_url : List Bytes → HttpState → HttpState
  feed_url [] s = s
  feed_url (c ∷ cs) s = feed_url cs (on_url m c s)

  unfoldable pub feed_name : List Bytes → HttpState → HttpState
  feed_name [] s = s
  feed_name (c ∷ cs) s = feed_name cs (on_header_field m c s)

  unfoldable pub feed_value : List Bytes → HttpState → HttpState
  feed_value [] s = s
  feed_value (c ∷ cs) s = feed_value cs (on_header_value m c s)

  -- The calls for one header.
  unfoldable pub feed_header : Pieces → HttpState → HttpState
  unfolding feed_name feed_value
  feed_header h s =
      feed_value (h.value_first ∷ h.value_more) (feed_name (h.name_first ∷ h.name_more) s)

  unfoldable pub feed_headers : List Pieces → HttpState → HttpState
  feed_headers [] s = s
  feed_headers (h ∷ hs) s = feed_headers hs (feed_header h s)

  feed_url-joined :
      (cs : List Bytes) (s : HttpState)
      → feed_url cs s ≡ record s { url_or_status = s.url_or_status ++ joined cs }
  unfolding feed_url on_url
  feed_url-joined [] s = ap (λ u. record s { url_or_status = u }) (sym (append-nil s.url_or_status))
  feed_url-joined (c ∷ cs) s =
      feed_url-joined cs (on_url m c s)
      ∙ ap (λ u. record s { url_or_status = u }) (append_assoc s.url_or_status c (joined cs))

  on_header_field_idle :
      (c : Bytes) (s : HttpState)
      → s.value_valid ≡ false
      → on_header_field m c s ≡ record s { field = s.field ++ c }
  unfolding on_header_field
  on_header_field_idle c s off = ground arith

  on_header_value_more :
      (c : Bytes) (s : HttpState)
      → s.value_valid ≡ true
      → on_header_value m c s ≡ record s { value = s.value ++ c }
  unfolding on_header_value
  on_header_value_more c s on = ground arith

  feed_name-joined :
      (cs : List Bytes) (s : HttpState)
      → s.value_valid ≡ false
      → feed_name cs s ≡ record s { field = s.field ++ joined cs }
  unfolding feed_name
  feed_name-joined [] s off = ap (λ f. record s { field = f }) (sym (append-nil s.field))
  feed_name-joined (c ∷ cs) s off =
      ap (feed_name cs) (on_header_field_idle c s off)
      ∙ feed_name-joined cs (record s { field = s.field ++ c }) off
      ∙ ap (λ f. record s { field = f }) (append_assoc s.field c (joined cs))

  feed_value-joined :
      (cs : List Bytes) (s : HttpState)
      → s.value_valid ≡ true
      → feed_value cs s ≡ record s { value = s.value ++ joined cs }
  unfolding feed_value
  feed_value-joined [] s on = ap (λ v. record s { value = v }) (sym (append-nil s.value))
  feed_value-joined (c ∷ cs) s on =
      ap (feed_value cs) (on_header_value_more c s on)
      ∙ feed_value-joined cs (record s { value = s.value ++ c }) on
      ∙ ap (λ v. record s { value = v }) (append_assoc s.value c (joined cs))

  move_header_valid : (s : HttpState) → (move_header m s).value_valid ≡ false
  unfolding move_header
  move_header_valid s = ground arith

  on_header_field_lem :
      (c : Bytes) (s : HttpState)
      → let t = move_header m s in on_header_field m c s ≡ record t { field = t.field ++ c }
  unfolding on_header_field
  on_header_field_lem c s = refl

  -- Whatever the pieces, a header becomes the pending one, behind what the last one left.
  pub feed_header_lem :
      (h : Pieces) (s : HttpState)
      → let t = move_header m s in
        feed_header h s ≡ record t {
          field = t.field ++ name_of h;
          value = t.value ++ value_of h;
          value_valid = true;
        }
  unfolding feed_header on_header_value
  feed_header_lem h s =
      let t = move_header m s in
      let named : HttpState = record t {
        field = (t.field ++ h.name_first) ++ joined h.name_more;
      } in
      let valued : HttpState = record named {
        value_valid = true;
        value = t.value ++ h.value_first;
      } in
      ap (λ u. feed_value h.value_more (on_header_value m h.value_first u))
        (ap (feed_name h.name_more) (on_header_field_lem h.name_first s)
          ∙ feed_name-joined h.name_more (record t { field = t.field ++ h.name_first })
              (move_header_valid s))
      ∙ feed_value-joined h.value_more valued refl
      ∙ ap (λ f. record valued { field = f; value = valued.value ++ joined h.value_more })
          (append_assoc t.field h.name_first (joined h.name_more))
      ∙ ap (λ v. record valued { field = t.field ++ name_of h; value = v })
          (append_assoc t.value h.value_first (joined h.value_more))

  moved_field_stays :
      (s : HttpState) (old : Bytes)
      → s.value_valid ≡ true
      → lookup s.field s.headers ≡ some old
      → (move_header m s).field ≡ s.field
  unfolding move_header
  moved_field_stays s old on there = ground arith

  -- If the pending header has a name that is in the map already, it leaves its name behind: the
  -- next header gets a name that is the two names put together.
  pub repeated_name_sticks :
      (h : Pieces) (s : HttpState) (old : Bytes)
      → s.value_valid ≡ true
      → lookup s.field s.headers ≡ some old
      → (feed_header h s).field ≡ s.field ++ name_of h
  repeated_name_sticks h s old on there =
      ap (λ (u : HttpState). u.field) (feed_header_lem h s)
      ∙ ap (λ f. f ++ name_of h) (moved_field_stays s old on there)
