-- ===== src/Http/SplitUri/Split.antt =====
-- What `SplitHttpUri` (src/fasterhttp.c) returns on any URI.
use hetao.Base.{
  ℕ, ◌+◌, ◌-◌, ◌<◌, ◌≡◌, refl, inl, inr, Option, none, some, List, arith, ltb, ◌==◌, Bool-cases,
}
use hetao.Http.SplitUri.{
  Stat, SplitResult, last_slash, marks, find_marks, behind, split_at, split_http_uri,
}
use hetao.Http.SplitUri.Loops.{
  IsLast, IsLastDot, IsMarked, last_slash-IsLast, find_marks_from-IsMarked,
}
use hetao.Http.SplitUri.Parts.{
  path_end, EndsAt, split_file-EndsAt, split_path_file-EndsAt, split_bare-EndsAt, split_path-EndsAt,
}
use hetao.Http.Types.{Memory}

-- The dot found stands in front of the path's end.
dot-lt :
    (uri : Memory) (lo n d : ℕ) (q : Option ℕ)
    → IsMarked uri lo n (marks (some d) q)
    → d < path_end n q
dot-lt uri lo n d none k = k.dot_last.1
dot-lt uri lo n d (some q) k =
    let (l, h, e, before, later) = k.dot_last in
    let (l', h', e', _) = k.question_last in
    elim (Bool-cases (ltb d q)) [
      | inl f ↦ ground arith
      | inr f ↦ elim (Bool-cases (d == q)) [
        | inl t ↦
            let same : d ≡ q = ground arith in
            let both : uri q ≡ b'.' = rw same at e in ground arith
        | inr t ↦ absurd (before q l' (ground arith) e')
      ]
    ]

module _ (stat : List ℕ → Stat) (wwwroot : Option (List ℕ)) (uri : Memory) (n : ℕ) where
  -- With the last slash, the last dot in front of every question mark, and the last question mark,
  -- as far as they are found, the parts are those.
  abbrev pub SplitEnds : SplitResult → Type 0
  SplitEnds r =
      (s : Option ℕ) × (d : Option ℕ) × (q : Option ℕ) × IsLast uri b'/' 0 n s
      × IsLastDot uri (behind s) n d
      × IsLast uri b'?' (behind s) n q
      × EndsAt stat wwwroot uri n s d q r

  split_at_start :
      (d q : Option ℕ)
      → IsMarked uri 0 n (marks d q)
      → EndsAt stat wwwroot uri n none d q (split_at stat wwwroot uri n none (marks d q))
  unfolding split_at
  split_at_start none q k = split_bare-EndsAt stat wwwroot uri n wwwroot q refl k.question_last
  split_at_start (some d) q k = split_file-EndsAt stat wwwroot uri n d q k (dot-lt uri 0 n d q k)

  split_at_slash :
      (s : ℕ) (d q : Option ℕ)
      → s < n
      → IsMarked uri (s + 1) n (marks d q)
      → EndsAt stat wwwroot uri n (some s) d q (split_at stat wwwroot uri n (some s) (marks d q))
  unfolding split_at
  split_at_slash s none q f k =
      split_path-EndsAt stat wwwroot uri n s wwwroot q refl f k.question_last
  split_at_slash s (some d) q f k =
      split_path_file-EndsAt stat wwwroot uri n s d q f k (dot-lt uri (s + 1) n d q k)

  split_from :
      (o : Option ℕ)
      → IsLast uri b'/' 0 n o
      → SplitEnds (
          split_at stat wwwroot uri n o
            (find_marks uri (n - behind o) (behind o) (marks none none)))
  split_from none f =
      let m = find_marks uri (n - 0) 0 (marks none none) in
      let k = find_marks_from-IsMarked uri 0 n (omega arith) in
      (
        none,
        m.p_dot,
        m.p_question_mark,
        f,
        k.dot_last,
        k.question_last,
        split_at_start m.p_dot m.p_question_mark k,
      )
  split_from (some s) f =
      let m = find_marks uri (n - (s + 1)) (s + 1) (marks none none) in
      let k = find_marks_from-IsMarked uri (s + 1) n (omega (arith, f.1)) in
      (
        some s,
        m.p_dot,
        m.p_question_mark,
        f,
        k.dot_last,
        k.question_last,
        split_at_slash s m.p_dot m.p_question_mark f.1 k,
      )

  -- `SplitHttpUri` on any URI. With the last slash, and behind it the last question mark and the
  -- last dot in front of every question mark, where there are such: the parameters are what stands
  -- behind that question mark, and the path ends in front of it. A path with that dot is a file:
  -- the directory is what stands in front of the slash, the file's name all behind it, with one byte
  -- too many where there are a slash and no parameters, the main name what stands in front of the
  -- dot and the extension what stands behind it. Without a dot STAT is asked for the path under
  -- `wwwroot`: a file has the same parts and no extension, of a directory the whole path is the
  -- directory, and where it is missing a code other than 0 is returned. So it is where `wwwroot` is
  -- NULL and there are no parameters; where there are some, the NULL is printed.
  pub split_http_uri-Ends : SplitEnds (split_http_uri stat wwwroot uri n)
  unfolding split_http_uri
  split_http_uri-Ends = split_from (last_slash uri n) (last_slash-IsLast uri n)
