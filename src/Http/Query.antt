-- ===== src/Http/Query.antt =====
-- The questions that src/fasterhttp.c answers on the headers of a parsed message: QueryHttpHeader,
-- TravelHttpHeaderPtr and the functions beside them.
pub mod First
pub mod Named
pub mod Examples
use hetao.Base.{
  ℕ, zero, suc, ◌+◌, ◌-◌, Bool, false, not, ◌&&◌, Option, none, some, List, ◌==◌, if◌then◌else◌,
  length, get_or,
}
use hetao.Base.Int.{ℤ, pos, ltb_ℤ}
use hetao.Http.Scan.{bytes_are}
use hetao.Http.Types.{Memory, HttpBuffer, BufferName, HttpHeader, zero_header, HttpHeaders, HttpEnv}
use mathlib.Core.Option

-- The buffers that an environment has.
abbrev pub Buffers : Type 0
Buffers = BufferName → HttpBuffer

-- A pointer into a buffer: which, and its offset; or NULL.
abbrev pub Pointer : Type 0
Pointer = Option (BufferName × ℕ)

abbrev pub pointer_to : Option BufferName → ℕ → Pointer
pointer_to none offset = none
pointer_to (some name) offset = some (name, offset)

abbrev pub has_base : Buffers → Option BufferName → Bool
has_base buffers none = false
has_base buffers (some name) = not (buffers name).base_null

abbrev pub base_of : Buffers → Option BufferName → Memory
base_of buffers none = λ i. 0
base_of buffers (some name) = (buffers name).base

-- The condition of QueryHttpHeader; `name` is the text without its NUL.
unfoldable pub is_named : Buffers → List ℕ → HttpHeader → Bool
unfolding bytes_are
is_named buffers name h =
    has_base buffers h.p_buffer
    && ((h.name_len == length name) && bytes_are (base_of buffers h.p_buffer) h.name_offset name)

-- The loops over the `n` headers from `i` on: the index of the first that passes the test.
unfoldable pub find_header : (HttpHeader → Bool) → List HttpHeader → ℕ → ℕ → Option ℕ
find_header test array zero i = none
find_header test array (suc n) i =
    let later = find_header test array n (suc i) in
    if test (get_or array i zero_header) then some i else later

unfoldable pub query_http_header : Buffers → HttpEnv → List ℕ → Option ℕ
unfolding find_header is_named
query_http_header buffers e name =
    find_header (is_named buffers name) e.headers.header_array e.headers.header_array_size 0

abbrev pub header_at : HttpEnv → ℕ → HttpHeader
header_at e i = get_or e.headers.header_array i zero_header

-- GetHttpHeaderNamePtr, GetHttpHeaderValuePtr and the lengths, of a header or of NULL; `value_len`
-- is what the caller's `*p_value_len` is set to.
unfoldable pub header_name_ptr : Option HttpHeader → Pointer
header_name_ptr none = none
header_name_ptr (some h) = pointer_to h.p_buffer h.name_offset

unfoldable pub header_value_ptr : Option HttpHeader → Pointer
header_value_ptr none = none
header_value_ptr (some h) = pointer_to h.p_buffer h.value_offset

unfoldable pub query_http_header_ptr : Buffers → HttpEnv → List ℕ → Pointer
unfolding query_http_header header_value_ptr
query_http_header_ptr buffers e name =
    header_value_ptr (Option.map (header_at e) (query_http_header buffers e name))

abbrev pub len_or_zero : Option HttpHeader → ℤ
len_or_zero none = pos 0
len_or_zero (some h) = h.value_len

unfoldable pub query_http_header_len : Buffers → HttpEnv → List ℕ → ℤ
unfolding query_http_header
query_http_header_len buffers e name =
    len_or_zero (Option.map (header_at e) (query_http_header buffers e name))

abbrev pub has_name : HttpHeader → Bool
has_name h = not (h.name_offset == 0)

-- The header behind another, or the first of all behind NULL.
unfoldable pub travel_http_header_ptr : HttpEnv → Option ℕ → Option ℕ
unfolding find_header
travel_http_header_ptr e none =
    find_header has_name e.headers.header_array e.headers.header_array_size 0
travel_http_header_ptr e (some p) =
    find_header has_name e.headers.header_array (e.headers.header_array_size - (p + 1)) (p + 1)

-- GetHttpHeaderPtr_METHOD, GetHttpHeaderPtr_URI and their kin, of the field that each names.
unfoldable pub get_http_header_ptr : (HttpHeaders → HttpHeader) → HttpEnv → Pointer × ℤ
get_http_header_ptr field e =
    let h = field e.headers in (pointer_to h.p_buffer h.value_offset, h.value_len)

unfoldable pub get_http_body_ptr : HttpEnv → Pointer × ℤ
get_http_body_ptr e = (
  if ltb_ℤ (pos 0) e.headers.content_length
      then pointer_to e.p_body_buffer e.body_base_offset
      else none,
  e.headers.content_length,
)
