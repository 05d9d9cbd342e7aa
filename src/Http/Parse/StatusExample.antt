-- ===== src/Http/Parse/StatusExample.antt =====
-- The status line `HTTP/1.1 404 Not Found` in `ParseHttpBuffer` (src/fasterhttp.c).
use hetao.Base.{
  ℕ, zero, suc, ◌+◌, ◌*◌, ◌≤◌, ◌<◌, ◌≡◌, refl, ◌≢◌, inl, inr, Bool, true, not, ◌&&◌, some, arith,
  ◌==◌, Bool-cases,
}
use hetao.Http.Parse.{run, parse_http_buffer}
use hetao.Http.Parse.LineExample.{word_at, not_here, both_true, word_at-Word}
use hetao.Http.Parse.Runs.{filled, fresh_env, always}
use hetao.Http.Parse.StatusLine.{StatusLine, status_recorded, parse_http_buffer-status}
use hetao.Http.Scan.{newline, bytes_are}
use hetao.Http.StartLine.{version_of}
use hetao.Http.Types.{Memory, HttpBuffer, response_buffer, no_version, version_1_1}

abbrev not_found : HttpBuffer
not_found = filled "HTTP/1.1 404 Not Found\r\n\r\n" 26

status_words :
    (word_at not_found.base 8 0 ≡ true)
    × (word_at not_found.base 3 9 ≡ true)
    × (word_at not_found.base 1 13 ≡ true)
unfolding word_at
status_words = (refl, refl, refl)

-- Whether `n` bytes are no newlines.
line_at : Memory → ℕ → ℕ → Bool
line_at base zero p = true
line_at base (suc n) p = not (base p == newline) && line_at base n (suc p)

line_at-free :
    (base : Memory) (n p q : ℕ)
    → q ≡ p + n
    → line_at base n p ≡ true
    → (i : ℕ) → p ≤ i
    → i < q
    → base i ≢ newline
unfolding line_at
line_at-free base zero p q e h i g g' = absurd (omega arith)
line_at-free base (suc n) p q e h i g g' =
    let (here, rest) = both_true (not (base p == newline)) (line_at base n (suc p)) h in
    elim (Bool-cases (i == p)) [
      | inl t ↦ let same : i ≡ p = ground arith in rw same (not_here (base p) newline here)
      | inr t ↦ line_at-free base n (suc p) q (omega arith) rest i (ground arith) g'
    ]

phrase_free : line_at not_found.base 9 13 ≡ true
unfolding line_at
phrase_free = refl

not_found-StatusLine : StatusLine not_found 0 8 12 22
not_found-StatusLine = record {
  version_word = word_at-Word not_found.base 8 0 8 refl status_words.0;
  version_some = omega arith;
  version_end = refl;
  code_word = word_at-Word not_found.base 3 9 12 refl status_words.1;
  code_some = omega arith;
  code_end = refl;
  phrase_begins = word_at-Word not_found.base 1 13 14 refl status_words.2;
  phrase_line = line_at-free not_found.base 9 13 22 refl phrase_free;
  phrase_some = omega arith;
  phrase_end = refl;
  line_ends = refl;
  whole = omega arith;
}

status_version_known : version_of not_found.base 0 8 no_version ≡ some version_1_1
unfolding version_of bytes_are
status_version_known = refl

parse_http_buffer-status_example :
    parse_http_buffer always response_buffer not_found fresh_env
    ≡ run always response_buffer
        (2 * 26 + 2)
        not_found
        (status_recorded response_buffer fresh_env 0 8 12 22 version_1_1)
        24
parse_http_buffer-status_example =
    parse_http_buffer-status always not_found fresh_env 8 12 22 not_found-StatusLine version_1_1
      refl status_version_known
