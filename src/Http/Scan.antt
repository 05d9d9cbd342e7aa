-- ===== src/Http/Scan.antt =====
-- The loops of `ParseHttpBuffer` in src/fasterhttp.c that walk over the buffer, and its exits.
pub mod Walks
pub mod Stops
use hetao.Base.{
  ℕ, zero, suc, ◌+◌, ◌-◌, Bool, true, not, ◌&&◌, ◌||◌, List, [], ◌∷◌, leb, ◌==◌, if◌then◌else◌,
}
use hetao.Http.Types.{Memory, HttpBuffer, HttpEnv, Code, need_more_http_buffer}

-- What a `case` of the switch does: fall through or `goto` the step in `parse_step`, with `p`
-- where it stands; return a code; or run into undefined behaviour (a signed overflow).
pub data Next : Type 0 where
  jump : HttpBuffer → HttpEnv → ℕ → Next
  stop : HttpBuffer → HttpEnv → Code → Next
  undefined : Next

-- `while( p < fill_ptr ) { if( stops(*p) ) break; p++; }` over the `n` bytes that are left.
unfoldable pub scan : (ℕ → Bool) → Memory → ℕ → ℕ → ℕ
scan stops base zero p = p
scan stops base (suc n) p = if stops (base p) then p else scan stops base n (suc p)

unfoldable pub find : (ℕ → Bool) → HttpBuffer → ℕ → ℕ
find stops b p = scan stops b.base (b.fill_ptr - p) p

-- `b->process_ptr = p ; return FASTERHTTP_INFO_NEED_MORE_HTTP_BUFFER;`
abbrev pub need_more : HttpBuffer → HttpEnv → ℕ → Next
need_more b e p = stop (record b { process_ptr = p }) e need_more_http_buffer

abbrev pub newline : ℕ
newline = b'\n'

abbrev pub carriage_return : ℕ
carriage_return = b'\r'

abbrev pub is_newline : ℕ → Bool
is_newline c = c == newline

abbrev pub not_space : ℕ → Bool
not_space c = not (c == b' ')

abbrev pub space_or_newline : ℕ → Bool
space_or_newline c = c == b' ' || c == newline

abbrev pub colon_or_newline : ℕ → Bool
colon_or_newline c = c == b':' || c == newline

abbrev pub name_end : ℕ → Bool
name_end c = c == b' ' || (c == b':' || c == newline)

-- `tolower` in the C locale
abbrev pub to_lower : ℕ → ℕ
to_lower c = if leb b'A' c && leb c b'Z' then c + 32 else c

-- The bytes at an offset are those of a literal: `*(p2) == LITERAL[0] && *(p2+1) == ...`.
unfoldable pub bytes_are : Memory → ℕ → List ℕ → Bool
bytes_are base p [] = true
bytes_are base p (c ∷ cs) = (base p == c) && bytes_are base (suc p) cs

-- `STRNICMP( p , == , LITERAL , sizeof(LITERAL)-1 )`
unfoldable pub bytes_are_nocase : Memory → ℕ → List ℕ → Bool
bytes_are_nocase base p [] = true
bytes_are_nocase base p (c ∷ cs) =
    (to_lower (base p) == to_lower c) && bytes_are_nocase base (suc p) cs

-- `strncasecmp( p , q , n ) == 0`, which ends at a NUL that both have.
unfoldable pub same_nocase : Memory → ℕ → ℕ → ℕ → Bool
same_nocase base p q zero = true
same_nocase base p q (suc n) =
    (to_lower (base p) == to_lower (base q)) && (base p == 0 || same_nocase base (suc p) (suc q) n)
