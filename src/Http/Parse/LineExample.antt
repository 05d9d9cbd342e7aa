-- ===== src/Http/Parse/LineExample.antt =====
-- The request line `GET / HTTP/1.1` in `ParseHttpBuffer` (src/fasterhttp.c).
use hetao.Base.{
  ℕ, zero, suc, ◌+◌, ◌*◌, ◌≡◌, refl, ◌≢◌, inl, inr, Bool, true, not, ◌&&◌, some, arith, ◌==◌,
  Bool-cases,
}
use hetao.Http.Parse.{run, parse_http_buffer}
use hetao.Http.Parse.RequestLine.{RequestLine, line_recorded, parse_http_buffer-line}
use hetao.Http.Parse.Runs.{filled, fresh_env, always}
use hetao.Http.Scan.{newline, bytes_are}
use hetao.Http.StartLine.{method_of, version_of}
use hetao.Http.StartLine.Fields.{Word}
use hetao.Http.Types.{Memory, HttpBuffer, request_buffer, get, no_version, version_1_1}

-- Whether `n` bytes are neither spaces nor newlines.
unfoldable pub word_at : Memory → ℕ → ℕ → Bool
word_at base zero p = true
word_at base (suc n) p = (not (base p == b' ') && not (base p == newline)) && word_at base n (suc p)

pub not_here : (a b : ℕ) → not (a == b) ≡ true → a ≢ b
not_here a b h e = ground arith

pub both_true : (a b : Bool) → (a && b) ≡ true → (a ≡ true) × (b ≡ true)
both_true a b h = ground arith

pub word_at-Word : (base : Memory) (n p q : ℕ) → q ≡ p + n → word_at base n p ≡ true → Word base p q
unfolding word_at
word_at-Word base zero p q e h i g g' = absurd (omega arith)
word_at-Word base (suc n) p q e h i g g' =
    let (here, rest) = both_true _ (word_at base n (suc p)) h in
    let (s, l) = both_true (not (base p == b' ')) (not (base p == newline)) here in
    elim (Bool-cases (i == p)) [
      | inl t ↦
          let same : i ≡ p = ground arith in
          rw same (not_here (base p) b' ' s, not_here (base p) newline l)
      | inr t ↦ word_at-Word base n (suc p) q (omega arith) rest i (ground arith) g'
    ]

abbrev get_line : HttpBuffer
get_line = filled "GET / HTTP/1.1\r\nHost: a\r\n\r\n" 27

words :
    (word_at get_line.base 3 0 ≡ true)
    × (word_at get_line.base 1 4 ≡ true)
    × (word_at get_line.base 8 6 ≡ true)
unfolding word_at
words = (refl, refl, refl)

get_line-RequestLine : RequestLine get_line 0 3 5 14
get_line-RequestLine = record {
  method_word = word_at-Word get_line.base 3 0 3 refl words.0;
  method_some = omega arith;
  method_end = refl;
  uri_word = word_at-Word get_line.base 1 4 5 refl words.1;
  uri_some = omega arith;
  uri_end = refl;
  version_word = word_at-Word get_line.base 8 6 14 refl words.2;
  version_some = omega arith;
  version_end = refl;
  line_ends = refl;
  whole = omega arith;
}

get_known : method_of get_line.base 0 3 ≡ some get
unfolding method_of bytes_are
get_known = refl

version_known : version_of get_line.base 6 8 no_version ≡ some version_1_1
unfolding version_of bytes_are
version_known = refl

parse_http_buffer-line_example :
    parse_http_buffer always request_buffer get_line fresh_env
    ≡ run always request_buffer
        (2 * 27 + 2)
        get_line
        (line_recorded request_buffer fresh_env 0 3 5 14 get version_1_1)
        16
parse_http_buffer-line_example =
    parse_http_buffer-line always get_line fresh_env 3 5 14 get_line-RequestLine get version_1_1
      refl get_known version_known
