-- ===== src/Http/KeepAlive.antt =====
-- CheckHttpKeepAlive, SetHttpKeepAlive and TokenHttpHeaderValue of src/fasterhttp.c.
pub mod Tokens
pub mod Examples
use hetao.Base.{ℕ, ◌-◌, Bool, false, not, ◌||◌, Option, none, some, ◌==◌, if◌then◌else◌}
use hetao.Base.Int.{ℤ, pos, negsuc}
use hetao.Http.Scan.{scan, newline, carriage_return}
use hetao.Http.Types.{Memory, Version, no_version, version_1_0, version_1_1, HttpEnv}

abbrev pub is_one : ℤ → Bool
is_one (pos n) = n == 1
is_one (negsuc n) = false

abbrev pub is_minus_one : ℤ → Bool
is_minus_one (pos n) = false
is_minus_one (negsuc n) = n == 0

abbrev pub keeps_alive : Version → ℤ → Bool
keeps_alive version_1_0 keepalive = is_one keepalive
keeps_alive version_1_1 keepalive = not (is_minus_one keepalive)
keeps_alive no_version keepalive = false

unfoldable pub check_http_keep_alive : HttpEnv → Bool
check_http_keep_alive e = keeps_alive e.headers.version e.headers.connection_keepalive

abbrev pub keepalive_off : Version → ℤ
keepalive_off version_1_0 = pos 0
keepalive_off version_1_1 = negsuc 0
keepalive_off no_version = pos 0

unfoldable pub set_http_keep_alive : HttpEnv → Bool → HttpEnv
set_http_keep_alive e keepalive = record e {
  headers = record e.headers {
    connection_keepalive = if keepalive then pos 1 else keepalive_off e.headers.version;
  };
}

-- The bytes that part tokens, that end the text, and that end a token.
abbrev pub not_separator : ℕ → Bool
not_separator c = not (c == b' ' || c == b',')

abbrev pub ends_text : ℕ → Bool
ends_text c = c == carriage_return || (c == newline || c == 0)

abbrev pub ends_token : ℕ → Bool
ends_token c = c == b' ' || (c == b',' || ends_text c)

-- The token of a text whose NUL is one of the `n` bytes from `p` on: where it begins and ends, or
-- NULL.
unfoldable pub token_http_header_value : Memory → ℕ → ℕ → Option (ℕ × ℕ)
token_http_header_value str n p =
    let q = scan not_separator str n p in
    let r = scan ends_token str (n - (q - p)) q in
    if ends_text (str q) then none else if r == q then none else some (q, r)
