-- ===== src/Http/HeaderValue.antt =====
-- The step HEADER_VALUE of `ParseHttpBuffer` in src/fasterhttp.c: the end of a header line, the
-- headers that the parser itself reads, and the growth of the header array.
use hetao.Base.{
  ℕ, zero, suc, ◌+◌, ◌-◌, ◌*◌, ◌^◌, Bool, true, ◌&&◌, ◌||◌, some, List, [], ◌∷◌, ◌++◌, ltb, leb,
  ◌==◌, if◌then◌else◌, length, take, replicate,
}
use hetao.Base.Int.{ℤ, pos, negsuc, pos_part, neg_part, sub_ℕ, ltb_ℤ, to_int}
use hetao.Http.HeaderLine.{p_header, with_p_header, finish_reforming}
use hetao.Http.Scan.{Next, jump, stop, carriage_return, bytes_are_nocase, same_nocase}
use hetao.Http.StartLine.{end_line, with_headers}
use hetao.Http.Types.{
  Memory, HttpBuffer, BufferName, HttpHeader, zero_header, HttpHeaders, header_name0, HttpEnv,
  error_alloc,
}

-- The whitespace that `strtol` skips, in the C locale.
abbrev pub is_white : ℕ → Bool
is_white c = c == b' ' || (leb 9 c && leb c 13)

abbrev pub is_digit : ℕ → Bool
is_digit c = leb b'0' c && leb c b'9'

unfoldable pub skip_white : Memory → ℕ → ℕ → ℕ
skip_white base zero p = p
skip_white base (suc n) p = if is_white (base p) then skip_white base n (suc p) else p

unfoldable pub read_digits : Memory → ℕ → ℕ → ℕ → ℕ
read_digits base zero p acc = acc
read_digits base (suc n) p acc =
    let rest = read_digits base n (suc p) (acc * 10 + (base p - b'0')) in
    if is_digit (base p) then rest else acc

-- The values of `long`.
abbrev pub long_limit : ℕ
long_limit = 2 ^ 63

abbrev pub negative_long : ℕ → ℤ
negative_long v = if ltb long_limit v then sub_ℕ 0 long_limit else sub_ℕ 0 v

abbrev pub positive_long : ℕ → ℤ
positive_long v = if ltb v long_limit then pos v else pos (long_limit - 1)

-- Behind the whitespace: an optional sign and digits, clamped to `long`; `n` bytes are left.
unfoldable pub signed_digits : Memory → ℕ → ℕ → ℤ
unfolding read_digits
signed_digits base n q =
    if base q == b'-'
    then negative_long (read_digits base (n - 1) (q + 1) 0)
    else if base q == b'+'
    then positive_long (read_digits base (n - 1) (q + 1) 0)
    else positive_long (read_digits base n q 0)

-- `strtol( p , NULL , 10 )` over the `n` bytes from `p` to the buffer's end.
unfoldable pub strtol : Memory → ℕ → ℕ → ℤ
unfolding skip_white signed_digits
strtol base n p = let q = skip_white base n p in signed_digits base (n - (q - p)) q

-- `p2 = p - 1 ; while( (*p2) == ' ' || (*p2) == HTTP_RETURN ) { value_len-- ; p2-- ; }`: how often.
unfoldable pub trimmed : Memory → ℕ → ℕ
trimmed base zero = zero
trimmed base (suc i) =
    let more = suc (trimmed base i) in
    if base i == b' ' || base i == carriage_return then more else zero

abbrev pub value_is : Memory → HttpHeader → List ℕ → Bool
value_is base f text =
    (pos_part f.value_len == length text) && bytes_are_nocase base f.value_offset text

abbrev pub name_is : Memory → HttpHeader → List ℕ → Bool
name_is base f text = (f.name_len == length text) && bytes_are_nocase base f.name_offset text

abbrev pub content_length_text : List ℕ
content_length_text =
    b'C' ∷ b'o' ∷ b'n' ∷ b't' ∷ b'e' ∷ b'n' ∷ b't' ∷ b'-' ∷ b'L' ∷ b'e' ∷ b'n' ∷ b'g' ∷ b't' ∷ b'h'
    ∷ []

abbrev pub transfer_encoding_text : List ℕ
transfer_encoding_text =
    b'T' ∷ b'r' ∷ b'a' ∷ b'n' ∷ b's' ∷ b'f' ∷ b'e' ∷ b'r' ∷ b'-' ∷ b'E' ∷ b'n' ∷ b'c' ∷ b'o' ∷ b'd'
    ∷ b'i' ∷ b'n' ∷ b'g' ∷ []

abbrev pub chunked_text : List ℕ
chunked_text = b'c' ∷ b'h' ∷ b'u' ∷ b'n' ∷ b'k' ∷ b'e' ∷ b'd' ∷ []

abbrev pub trailer_text : List ℕ
trailer_text = b'T' ∷ b'r' ∷ b'a' ∷ b'i' ∷ b'l' ∷ b'e' ∷ b'r' ∷ []

abbrev pub connection_text : List ℕ
connection_text = b'C' ∷ b'o' ∷ b'n' ∷ b'n' ∷ b'e' ∷ b'c' ∷ b't' ∷ b'i' ∷ b'o' ∷ b'n' ∷ []

abbrev pub keep_alive_text : List ℕ
keep_alive_text = b'K' ∷ b'e' ∷ b'e' ∷ b'p' ∷ b'-' ∷ b'A' ∷ b'l' ∷ b'i' ∷ b'v' ∷ b'e' ∷ []

abbrev pub close_text : List ℕ
close_text = b'C' ∷ b'l' ∷ b'o' ∷ b's' ∷ b'e' ∷ []

unfoldable pub keepalive_of : Memory → HttpHeader → ℤ
unfolding bytes_are_nocase
keepalive_of base f =
    if value_is base f keep_alive_text
    then pos 1
    else if value_is base f close_text
    then negsuc 0
    else pos 0

-- The headers that the parser acts on. `n` is the buffer's size, which bounds `strtol`.
unfoldable pub read_header : Memory → ℕ → BufferName → HttpHeader → HttpHeaders → HttpHeaders
unfolding bytes_are_nocase strtol keepalive_of
read_header base n name f h =
    if name_is base f content_length_text
    then record h { content_length = to_int (strtol base (n - f.value_offset) f.value_offset) }
    else if name_is base f transfer_encoding_text && value_is base f chunked_text
    then record h { transfer_encoding_chunked = true }
    else if name_is base f trailer_text
    then record h {
      trailer_header = record h.trailer_header {
        p_buffer = some name;
        value_offset = f.value_offset;
        value_len = f.value_len;
      };
    }
    else if name_is base f connection_text
    then record h { connection_keepalive = keepalive_of base f }
    else h

-- The header just read is the one that a `Trailer` header announced.
unfoldable pub is_trailer : Memory → HttpHeader → HttpHeaders → Bool
unfolding same_nocase
is_trailer base f h =
    h.transfer_encoding_chunked
    && (ltb_ℤ (pos 0) h.content_length
        && ((pos_part h.trailer_header.value_len == f.name_len
              && neg_part h.trailer_header.value_len == 0)
            && same_nocase base f.name_offset h.trailer_header.value_offset f.name_len))

-- `header_array` twice as large, with zeroed elements behind the first `header_array_count`.
abbrev pub grow_headers : HttpHeaders → HttpHeaders
grow_headers h = record h {
  header_array =
      take h.header_array_count h.header_array
      ++ replicate (h.header_array_size * 2 - h.header_array_count) zero_header;
  header_array_size = h.header_array_size * 2;
}

-- `realloc_succeeds n` says whether `realloc` finds room for `n` headers.
unfoldable pub next_header : (ℕ → Bool) → HttpBuffer → HttpEnv → ℕ → HttpHeaders → Next
next_header realloc_succeeds b e p h =
    if leb h.header_array_size h.header_array_count
    then if realloc_succeeds (h.header_array_size * 2)
      then jump b (with_headers e header_name0 (grow_headers h)) p
      else stop b (record e { headers = h }) error_alloc
    else jump b (with_headers e header_name0 h) p

-- The header `f` is stored, read and counted; `p` is behind its newline.
unfoldable pub after_header :
    (ℕ → Bool) → HttpBuffer → HttpEnv → ℕ → HttpHeader → HttpHeaders → Next
after_header realloc_succeeds b e p f h =
    if is_trailer b.base f h
    then finish_reforming b (record e { headers = h }) p
    else next_header realloc_succeeds b e p h

-- The header with its value up to the newline `q`, less the blanks at its end. Where the value is
-- empty its length is below zero: the blanks before it are counted off too.
abbrev pub ended_header : Memory → ℕ → HttpHeader → HttpHeader
ended_header base q f = record f { value_len = sub_ℕ (q - f.value_offset) (trimmed base q) }

-- The header `f` in its place, the parser's own fields, and the count.
unfoldable pub store_header : Memory → ℕ → BufferName → HttpHeader → HttpHeaders → HttpHeaders
unfolding read_header
store_header base n name f h =
    let h' = read_header base n name f (with_p_header h f) in
    record h' { header_array_count = h'.header_array_count + 1 }

-- At the newline `q`: the header is complete.
unfoldable pub end_header : (ℕ → Bool) → BufferName → HttpBuffer → HttpEnv → ℕ → Next
end_header realloc_succeeds name b e q =
    let f = ended_header b.base q (p_header e.headers) in
    after_header realloc_succeeds b e (q + 1) f (store_header b.base b.buf_size name f e.headers)

unfoldable pub step_header_value : (ℕ → Bool) → BufferName → HttpBuffer → HttpEnv → ℕ → Next
step_header_value realloc_succeeds name b e p =
    end_line (end_header realloc_succeeds name b e) b e p
