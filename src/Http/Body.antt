-- ===== src/Http/Body.antt =====
-- The steps BODY, CHUNKED_SIZE and CHUNKED_DATA of `ParseHttpBuffer` in src/fasterhttp.c.
pub mod ChunkSize
pub mod Examples
use hetao.Base.{
  ℕ, zero, suc, ◌+◌, ◌-◌, ◌*◌, not, ◌&&◌, Option, none, some, ltb, leb, ◌==◌, if◌then◌else◌,
}
use hetao.Base.Int.{pos, pos_part, neg_part, ◌+ℤ◌, int_max}
use hetao.Http.HeaderLine.{finish_reforming}
use hetao.Http.Scan.{Next, jump, undefined, need_more, newline, carriage_return}
use hetao.Http.Types.{Memory, HttpBuffer, header_name0, chunked_size, chunked_data, HttpEnv}

unfoldable pub step_body : HttpBuffer → HttpEnv → Next
step_body b e =
    let total = e.headers.content_length in
    if leb (e.body_base_offset + pos_part total) (b.fill_ptr + neg_part total)
    then finish_reforming b e (e.body_base_offset + pos_part total - neg_part total)
    else need_more b e b.fill_ptr

-- The bytes that count as a digit, and `(*p)` less the base of its digit class.
abbrev pub size_digit : ℕ → Option ℕ
size_digit c =
    if leb b'0' c && leb c b'9'
    then some (c - b'0')
    else if leb b'a' c && leb c b'f'
    then some (c - b'a' + 10)
    else if leb b'A' c && leb c b'F'
    then some (c - b'A' + 10)
    else none

-- One round of the loop: `chunked_length * 10 + (*p) - ...`, undefined where the sum overflows.
abbrev pub add_digit : ℕ → ℕ → Option ℕ → Option ℕ
add_digit c total none = some total
add_digit c total (some d) = if ltb int_max (total * 10 + c) then none else some (total * 10 + d)

unfoldable pub add_size_digit : ℕ → ℕ → Option ℕ
add_size_digit c total = add_digit c total (size_digit c)

-- The loop over the `n` bytes that are left: `p`, `chunked_length` and `chunked_length_length`.
unfoldable pub read_size : Memory → ℕ → ℕ → ℕ → ℕ → Option (ℕ × ℕ × ℕ)
read_size base zero p total digits = some (p, total, digits)
read_size base (suc n) p total digits =
    if base p == newline then some (p, total, digits) else elim (add_size_digit (base p) total) [
      | none ↦ none
      | some total' ↦ read_size base n (suc p) total' (digits + 1)
    ]

-- Behind the newline of a chunk's size. A zero size ends the body, or leads to the trailer.
unfoldable pub end_size : HttpBuffer → HttpEnv → ℕ → Next
end_size b e p =
    if e.chunked_length == 0
    then if not (e.headers.trailer_header.value_offset == 0)
      then jump b (record e { parse_step = header_name0 }) p
      else finish_reforming b e p
    else jump b (record e { chunked_body = p; parse_step = chunked_data }) p

abbrev pub with_size : HttpEnv → ℕ → ℕ → HttpEnv
with_size e total digits = record e { chunked_length = total; chunked_length_length = digits }

-- After the loop, which stopped at `q`.
unfoldable pub after_size : HttpBuffer → HttpEnv → Option (ℕ × ℕ × ℕ) → Next
after_size b e none = undefined
after_size b e (some (q, total, digits)) =
    if leb b.fill_ptr q
    then need_more b (with_size e total digits) q
    else end_size b (with_size e total (digits + 1)) (q + 1)

unfoldable pub step_chunked_size : HttpBuffer → HttpEnv → ℕ → Next
step_chunked_size b e p =
    after_size b e (read_size b.base (b.fill_ptr - p) p e.chunked_length e.chunked_length_length)

-- `memmove( dest , src , n )`
abbrev pub memmove : Memory → ℕ → ℕ → ℕ → Memory
memmove base dest src n i =
    if leb dest i && ltb i (dest + n) then base (src + (i - dest)) else base i

-- Behind a chunk's data a line end is skipped.
abbrev pub skip_line_end : Memory → ℕ → ℕ
skip_line_end base p =
    if base p == carriage_return && base (p + 1) == newline
    then p + 2
    else if base p == newline
    then p + 1
    else p

unfoldable pub step_chunked_data : HttpBuffer → HttpEnv → Next
unfolding ◌+ℤ◌
step_chunked_data b e =
    let n = e.chunked_length in
    let base' = memmove b.base e.chunked_body_end e.chunked_body n in
    let total = e.headers.content_length +ℤ pos n in
    if ltb int_max (n + 2)
    then undefined
    else if leb (n + 2) (b.fill_ptr - e.chunked_body)
    then if ltb int_max (pos_part total)
      then undefined
      else jump (record b { base = base' })
          (record e {
            chunked_body_end = e.chunked_body_end + n;
            headers = record e.headers { content_length = total };
            parse_step = chunked_size;
            chunked_length = 0;
            chunked_length_length = 0;
          })
          (skip_line_end base' (e.chunked_body + n))
    else need_more b e b.fill_ptr
