-- ===== src/Http/SplitUri/Examples.antt =====
-- `SplitHttpUri` (src/fasterhttp.c) on URIs.
use hetao.Base.{
  ℕ, zero, suc, ◌-◌, ◌<◌, ◌≡◌, refl, sym, ◌≢◌, none, some, List, [], ◌∷◌, arith, get_or,
}
use hetao.Base.Int.{pos}
use hetao.Http.SplitUri.{HttpUri, slice, http_uri, Stat, missing, is_file, split, split_http_uri}
use hetao.Http.SplitUri.Loops.{Lacks}
use hetao.Http.SplitUri.Split.{SplitEnds, split_http_uri-Ends}
use hetao.Http.SplitUri.TooLong.{split_http_uri-too_long}

abbrev pub uri_of : List ℕ → ℕ → ℕ
uri_of s i = get_or s i 0

abbrev pub index_html : List ℕ
index_html = b'/' ∷ b'i' ∷ b'n' ∷ b'.' ∷ b'h' ∷ []

abbrev pub no_files : List ℕ → Stat
no_files path = missing

index_html_split :
    split_http_uri no_files none (uri_of index_html) 5
    ≡ split (
        http_uri
          (slice 0 0)
          (record { slice_base = 1; slice_len = pos 5 })
          (slice 1 3)
          (slice 4 5)
          (slice 0 0))
unfolding split_http_uri
index_html_split = refl

-- A slash in the parameters is taken for the end of the directory.
abbrev slash_in_param : List ℕ
slash_in_param = b'/' ∷ b'a' ∷ b'?' ∷ b'/' ∷ b'b' ∷ []

abbrev all_files : List ℕ → Stat
all_files path = is_file

slash_in_param_split :
    split_http_uri all_files (some []) (uri_of slash_in_param) 5
    ≡ split (http_uri (slice 0 3) (slice 4 5) (slice 4 5) (slice 4 4) (slice 4 4))
unfolding split_http_uri
slash_in_param_split = refl

split_http_uri-Ends_example :
    SplitEnds all_files
      (some [])
      (uri_of index_html)
      5
      (split_http_uri all_files (some []) (uri_of index_html) 5)
split_http_uri-Ends_example = split_http_uri-Ends all_files (some []) (uri_of index_html) 5

index_html-Lacks : (mark : ℕ) → mark < 104 → mark ≢ 46 → Lacks (uri_of index_html) mark 1 5
index_html-Lacks mark h h' zero l g e = omega arith
index_html-Lacks mark h h' (suc zero) l g e = omega arith
index_html-Lacks mark h h' (suc (suc zero)) l g e = omega arith
index_html-Lacks mark h h' (suc (suc (suc zero))) l g e = h' (sym e)
index_html-Lacks mark h h' (suc (suc (suc (suc zero)))) l g e = omega arith
index_html-Lacks mark h h' (suc (suc (suc (suc (suc i))))) l g e = omega arith

split_http_uri-too_long_example :
    (u : HttpUri) × (split_http_uri no_files none (uri_of index_html) 5 ≡ split u)
    × (u.filename.slice_len ≡ pos (5 - 0))
    × (u.filename.slice_base ≡ 1)
split_http_uri-too_long_example =
    split_http_uri-too_long no_files none (uri_of index_html) 5 0 3
      (omega arith, refl, index_html-Lacks 47 (ground arith) (ground arith))
      (omega arith, omega arith, refl) (index_html-Lacks 63 (ground arith) (ground arith))
