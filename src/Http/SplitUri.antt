-- ===== src/Http/SplitUri.antt =====
-- `SplitHttpUri` of src/fasterhttp.c: the directory, the file name, its two parts and the
-- parameters of a URI, as slices of it. Offsets count from `uri`. The build is that for Linux.
pub mod Loops
pub mod Parts
pub mod Split
pub mod TooLong
pub mod Examples
use hetao.Base.{
  ℕ, zero, suc, ◌+◌, ◌-◌, Bool, true, false, ◌&&◌, Option, none, some, List, [], ◌∷◌, ◌++◌, ◌==◌,
  if◌then◌else◌, take,
}
use hetao.Base.Int.{ℤ, pos, negsuc, sub_ℕ}
use hetao.Http.Types.{Memory}

-- A `..._base` and a `..._len`: a difference of two pointers can be negative.
pub record Slice : Type 0 where
  pub slice_base : ℕ
  pub slice_len : ℤ

pub record HttpUri : Type 0 where
  pub dirname : Slice
  pub filename : Slice
  pub main_filename : Slice
  pub ext_filename : Slice
  pub param : Slice

abbrev pub slice : ℕ → ℕ → Slice
slice p q = record { slice_base = p; slice_len = sub_ℕ q p }

abbrev pub http_uri : Slice → Slice → Slice → Slice → Slice → HttpUri
http_uri d f m x p = record {
  dirname = d;
  filename = f;
  main_filename = m;
  ext_filename = x;
  param = p;
}

-- What `STAT` says of a path: -1, a directory, or anything else.
pub data Stat : Type 0 where
  missing is_directory is_file : Stat

-- The code of a refusal; a NULL `wwwroot` that is printed is undefined behaviour.
pub data SplitResult : Type 0 where
  split : HttpUri → SplitResult
  not_split : ℤ → SplitResult
  undefined_split : SplitResult

-- The first loop, downwards from the end.
unfoldable pub last_slash : Memory → ℕ → Option ℕ
last_slash uri zero = none
last_slash uri (suc p) = if uri p == b'/' then some p else last_slash uri p

pub record Marks : Type 0 where
  pub p_dot : Option ℕ
  pub p_question_mark : Option ℕ

abbrev pub marks : Option ℕ → Option ℕ → Marks
marks d q = record { p_dot = d; p_question_mark = q }

abbrev pub is_null : Option ℕ → Bool
is_null none = true
is_null (some p) = false

-- A round of the second loop.
unfoldable pub see_byte : ℕ → ℕ → Marks → Marks
see_byte c p m =
    if (c == b'.') && is_null m.p_question_mark
    then marks (some p) m.p_question_mark
    else if c == b'?'
    then marks m.p_dot (some p)
    else m

-- The second loop, over the `n` bytes that are left.
unfoldable pub find_marks : Memory → ℕ → ℕ → Marks → Marks
find_marks uri zero p m = m
find_marks uri (suc n) p m = find_marks uri n (suc p) (see_byte (uri p) p m)

-- The text that `%.*s` prints: it ends at a NUL.
unfoldable pub printed : Memory → ℕ → ℕ → List ℕ
printed uri p zero = []
printed uri p (suc n) = if uri p == 0 then [] else uri p ∷ printed uri (suc p) n

-- `SNPRINTF( pathfilename , sizeof(pathfilename) , ... )` into 257 bytes.
abbrev pub pathfilename : List ℕ → List ℕ → List ℕ
pathfilename root text = take 256 (root ++ text)

abbrev pub on_stat : ℤ → HttpUri → HttpUri → Stat → SplitResult
on_stat code directory file missing = not_split code
on_stat code directory file is_directory = split directory
on_stat code directory file is_file = split file

-- Where the second loop starts: behind the slash.
abbrev pub behind : Option ℕ → ℕ
behind none = 0
behind (some s) = s + 1

module _ (stat : List ℕ → Stat) (wwwroot : Option (List ℕ)) (uri : Memory) (n : ℕ) where
  -- "mydir" and "mydir?id=123"; the codes are octal numbers.
  unfoldable pub split_bare : Option (List ℕ) → Option ℕ → SplitResult
  split_bare none none = not_split (pos 1)
  split_bare (some root) none =
      on_stat (negsuc 0) (http_uri (slice 0 n) (slice 0 0) (slice 0 0) (slice n n) (slice n n))
        (http_uri (slice 0 0) (slice 0 n) (slice 0 n) (slice n n) (slice n n))
        (stat (pathfilename root (b'/' ∷ printed uri 0 n)))
  split_bare none (some q) = undefined_split
  split_bare (some root) (some q) =
      on_stat (negsuc 8)
        (http_uri (slice 0 q) (slice 0 0) (slice 0 0) (slice q q) (slice (q + 1) n))
        (http_uri (slice 0 0) (slice 0 q) (slice 0 q) (slice q q) (slice (q + 1) n))
        (stat (pathfilename root (b'/' ∷ printed uri 0 q)))

  -- "index.html" and "index.html?id=123".
  unfoldable pub split_file : ℕ → Option ℕ → SplitResult
  split_file d none =
      split (http_uri (slice 0 0) (slice 0 n) (slice 0 d) (slice (d + 1) n) (slice n n))
  split_file d (some q) =
      split (http_uri (slice 0 0) (slice 0 q) (slice 0 d) (slice (d + 1) q) (slice (q + 1) n))

  -- "/mydir" and "/mydir?id=123".
  unfoldable pub split_path : ℕ → Option (List ℕ) → Option ℕ → SplitResult
  split_path s none none = not_split (pos 1001)
  split_path s (some root) none =
      on_stat (negsuc 1000) (http_uri (slice 0 n) (slice 0 0) (slice 0 0) (slice n n) (slice n n))
        (http_uri (slice 0 s) (slice (s + 1) n) (slice (s + 1) n) (slice (s + 1) (s + 1))
          (slice (s + 1) (s + 1)))
        (stat (pathfilename root (printed uri 0 n)))
  split_path s none (some q) = undefined_split
  split_path s (some root) (some q) =
      on_stat (negsuc 1010)
        (http_uri (slice 0 q) (slice 0 0) (slice q q) (slice q q) (slice (q + 1) n))
        (http_uri (slice 0 s) (slice (s + 1) q) (slice (s + 1) q) (slice (s + 1) (s + 1))
          (slice (q + 1) n))
        (stat (pathfilename root (printed uri 0 q)))

  -- "/mydir/index.html", whose `filename_len` is `uri_end - p_slash`, and the same with "?id=123".
  unfoldable pub split_path_file : ℕ → ℕ → Option ℕ → SplitResult
  split_path_file s d none = split (
      http_uri (slice 0 s) (record { slice_base = s + 1; slice_len = sub_ℕ n s }) (slice (s + 1) d)
        (slice (d + 1) n) (slice 0 0))
  split_path_file s d (some q) =
      split (
        http_uri (slice 0 s) (slice (s + 1) q) (slice (s + 1) d) (slice (d + 1) q)
          (slice (q + 1) n))

  unfoldable pub split_at : Option ℕ → Marks → SplitResult
  unfolding split_bare split_file split_path split_path_file
  split_at none m = elim (m.p_dot) [
    | none ↦ split_bare wwwroot m.p_question_mark
    | some d ↦ split_file d m.p_question_mark
  ]
  split_at (some s) m = elim (m.p_dot) [
    | none ↦ split_path s wwwroot m.p_question_mark
    | some d ↦ split_path_file s d m.p_question_mark
  ]

  unfoldable pub split_http_uri : SplitResult
  unfolding last_slash find_marks see_byte printed split_at
  split_http_uri =
      let slash = last_slash uri n in
      split_at slash (find_marks uri (n - behind slash) (behind slash) (marks none none))
