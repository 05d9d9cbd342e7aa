-- ===== src/Http/SplitUri/Parts.antt =====
-- The slices that `SplitHttpUri` (src/fasterhttp.c) finds.
use hetao.Base.{
  ℕ, ◌+◌, ◌-◌, ◌≤◌, ◌<◌, ◌≡◌, refl, sym, ◌≢◌, ◌⊎◌, inl, inr, Option, none, some, List, ◌∷◌, arith,
}
use hetao.Base.Int.{ℤ, pos}
use hetao.Http.SplitUri.{
  Slice, HttpUri, slice, Stat, missing, is_directory, is_file, SplitResult, split, not_split,
  undefined_split, marks, printed, pathfilename, on_stat, behind, split_bare, split_file,
  split_path, split_path_file,
}
use hetao.Http.SplitUri.Loops.{IsLast, IsMarked}
use hetao.Http.Types.{Memory}

-- The slice is the part of the URI from `p` up to `q`; where that is empty it may begin anywhere.
abbrev pub Covers : ℕ → ℕ → Slice → Type 0
Covers p q x = (x.slice_len ≡ pos (q - p)) × ((q ≤ p) ⊎ (x.slice_base ≡ p))

-- The path ends in front of the question mark, or at the end.
abbrev pub path_end : ℕ → Option ℕ → ℕ
path_end n none = n
path_end n (some q) = q

abbrev pub param_begin : ℕ → Option ℕ → ℕ
param_begin n none = n
param_begin n (some q) = q + 1

abbrev pub dir_end : Option ℕ → ℕ
dir_end none = 0
dir_end (some s) = s

-- The main name ends in front of the dot, and the extension begins behind it.
abbrev pub main_end : ℕ → Option ℕ → ℕ
main_end z none = z
main_end z (some d) = d

abbrev pub ext_begin : ℕ → Option ℕ → ℕ
ext_begin z none = z
ext_begin z (some d) = d + 1

-- With a directory and a dot, and no parameters, the file's name has one byte too many.
abbrev pub file_end : ℕ → Option ℕ → Option ℕ → Option ℕ → ℕ
file_end n (some s) (some d) none = n + 1
file_end n s d q = path_end n q

-- A file: `s`, `d` and `q` are the places of its slash, dot and question mark.
pub record FileParts (n : ℕ) (s d q : Option ℕ) (u : HttpUri) : Type 0 where
  pub dir_covers : Covers 0 (dir_end s) u.dirname
  pub name_covers : Covers (behind s) (file_end n s d q) u.filename
  pub main_covers : Covers (behind s) (main_end (path_end n q) d) u.main_filename
  pub ext_covers : Covers (ext_begin (path_end n q) d) (path_end n q) u.ext_filename
  pub param_covers : Covers (param_begin n q) n u.param

pub record DirectoryParts (n : ℕ) (q : Option ℕ) (u : HttpUri) : Type 0 where
  pub dir_covers : Covers 0 (path_end n q) u.dirname
  pub no_name : u.filename.slice_len ≡ pos 0
  pub no_main : u.main_filename.slice_len ≡ pos 0
  pub no_ext : u.ext_filename.slice_len ≡ pos 0
  pub param_covers : Covers (param_begin n q) n u.param

-- The file that STAT is asked about, in the directory `root`.
abbrev pub asked : Memory → ℕ → Option ℕ → Option ℕ → List ℕ → List ℕ
asked uri n none q root = pathfilename root (b'/' ∷ printed uri 0 (path_end n q))
asked uri n (some s) q root = pathfilename root (printed uri 0 (path_end n q))

slice-Covers : (p q : ℕ) → p ≤ q → Covers p q (slice p q)
slice-Covers p q h = (ground arith, inr refl)

slice-empty : (p : ℕ) → (slice p p).slice_len ≡ pos 0
slice-empty p = ground arith

slice-Covers_empty : (p a : ℕ) → Covers p p (slice a a)
slice-Covers_empty p a = (ground arith, inl (omega arith))

module _ (stat : List ℕ → Stat) (wwwroot : Option (List ℕ)) (uri : Memory) (n : ℕ) where
  -- A name with a dot is a file. Without one STAT says what it is; a code other than 0 is returned
  -- where it is missing, or where `wwwroot` is NULL and there are no parameters.
  abbrev pub EndsAt : Option ℕ → Option ℕ → Option ℕ → SplitResult → Type 0
  EndsAt s (some d) q (split u) = FileParts n s (some d) q u
  EndsAt s (some d) q (not_split c) = ⊥
  EndsAt s (some d) q undefined_split = ⊥
  EndsAt s none q (split u) =
      (root : List ℕ) × (wwwroot ≡ some root)
      × (((stat (asked uri n s q root) ≡ is_directory) × DirectoryParts n q u)
          ⊎ ((stat (asked uri n s q root) ≡ is_file) × FileParts n s none q u))
  EndsAt s none q (not_split c) =
      (c ≢ pos 0)
      × (((root : List ℕ) × (wwwroot ≡ some root) × (stat (asked uri n s q root) ≡ missing))
          ⊎ ((wwwroot ≡ none) × (q ≡ none)))
  EndsAt s none q undefined_split = (wwwroot ≡ none) × (q ≢ none)

  on_stat-EndsAt :
      (s q : Option ℕ) (root : List ℕ) (code : ℤ) (d f : HttpUri) (st : Stat)
      → wwwroot ≡ some root
      → code ≢ pos 0
      → stat (asked uri n s q root) ≡ st
      → DirectoryParts n q d
      → FileParts n s none q f
      → EndsAt s none q (on_stat code d f st)
  on_stat-EndsAt s q root code d f missing w c e x y = (c, inl (root, w, e))
  on_stat-EndsAt s q root code d f is_directory w c e x y = (root, w, inl (e, x))
  on_stat-EndsAt s q root code d f is_file w c e x y = (root, w, inr (e, y))

  pub split_file-EndsAt :
      (d : ℕ) (q : Option ℕ)
      → IsMarked uri 0 n (marks (some d) q)
      → d < path_end n q
      → EndsAt none (some d) q (split_file stat wwwroot uri n d q)
  unfolding split_file
  split_file-EndsAt d none k l = record {
    dir_covers = slice-Covers_empty 0 0;
    name_covers = slice-Covers 0 n (omega arith);
    main_covers = slice-Covers 0 d (omega arith);
    ext_covers = slice-Covers (d + 1) n (omega arith);
    param_covers = slice-Covers n n (omega arith);
  }
  split_file-EndsAt d (some q) k l = record {
    dir_covers = slice-Covers_empty 0 0;
    name_covers = slice-Covers 0 q (omega arith);
    main_covers = slice-Covers 0 d (omega arith);
    ext_covers = slice-Covers (d + 1) q (omega arith);
    param_covers = slice-Covers (q + 1) n (omega (arith, k.question_last.1));
  }

  pub split_path_file-EndsAt :
      (s d : ℕ) (q : Option ℕ)
      → s < n
      → IsMarked uri (s + 1) n (marks (some d) q)
      → d < path_end n q
      → EndsAt (some s) (some d) q (split_path_file stat wwwroot uri n s d q)
  unfolding split_path_file
  split_path_file-EndsAt s d none f k l = record {
    dir_covers = slice-Covers 0 s (omega arith);
    name_covers = (ground arith, inr refl);
    main_covers = slice-Covers (s + 1) d k.dot_last.0;
    ext_covers = slice-Covers (d + 1) n (omega arith);
    param_covers = slice-Covers_empty n 0;
  }
  split_path_file-EndsAt s d (some q) f k l = record {
    dir_covers = slice-Covers 0 s (omega arith);
    name_covers = slice-Covers (s + 1) q k.question_last.0;
    main_covers = slice-Covers (s + 1) d k.dot_last.0;
    ext_covers = slice-Covers (d + 1) q (omega arith);
    param_covers = slice-Covers (q + 1) n (omega (arith, k.question_last.1));
  }

  pub split_bare-EndsAt :
      (root : Option (List ℕ)) (q : Option ℕ)
      → root ≡ wwwroot
      → IsLast uri b'?' 0 n q
      → EndsAt none none q (split_bare stat wwwroot uri n root q)
  unfolding split_bare
  split_bare-EndsAt none none e k = (ground arith, inr (sym e, refl))
  split_bare-EndsAt (some root) none e k =
      on_stat-EndsAt none none root _ _ _ _ (sym e) (ground arith) refl
        (record {
          dir_covers = slice-Covers 0 n (omega arith);
          no_name = slice-empty 0;
          no_main = slice-empty 0;
          no_ext = slice-empty n;
          param_covers = slice-Covers_empty n n;
        })
        (record {
          dir_covers = slice-Covers_empty 0 0;
          name_covers = slice-Covers 0 n (omega arith);
          main_covers = slice-Covers 0 n (omega arith);
          ext_covers = slice-Covers_empty n n;
          param_covers = slice-Covers_empty n n;
        })
  split_bare-EndsAt none (some q) e k = (sym e, λ f. cc)
  split_bare-EndsAt (some root) (some q) e k =
      on_stat-EndsAt none (some q) root _ _ _ _ (sym e) (ground arith) refl
        (record {
          dir_covers = slice-Covers 0 q (omega arith);
          no_name = slice-empty 0;
          no_main = slice-empty 0;
          no_ext = slice-empty q;
          param_covers = slice-Covers (q + 1) n (omega (arith, k.1));
        })
        (record {
          dir_covers = slice-Covers_empty 0 0;
          name_covers = slice-Covers 0 q (omega arith);
          main_covers = slice-Covers 0 q (omega arith);
          ext_covers = slice-Covers_empty q q;
          param_covers = slice-Covers (q + 1) n (omega (arith, k.1));
        })

  pub split_path-EndsAt :
      (s : ℕ) (root : Option (List ℕ)) (q : Option ℕ)
      → root ≡ wwwroot
      → s < n
      → IsLast uri b'?' (s + 1) n q
      → EndsAt (some s) none q (split_path stat wwwroot uri n s root q)
  unfolding split_path
  split_path-EndsAt s none none e f k = (ground arith, inr (sym e, refl))
  split_path-EndsAt s (some root) none e f k =
      on_stat-EndsAt (some s) none root _ _ _ _ (sym e) (ground arith) refl
        (record {
          dir_covers = slice-Covers 0 n (omega arith);
          no_name = slice-empty 0;
          no_main = slice-empty 0;
          no_ext = slice-empty n;
          param_covers = slice-Covers_empty n n;
        })
        (record {
          dir_covers = slice-Covers 0 s (omega arith);
          name_covers = slice-Covers (s + 1) n (omega arith);
          main_covers = slice-Covers (s + 1) n (omega arith);
          ext_covers = slice-Covers_empty n (s + 1);
          param_covers = slice-Covers_empty n (s + 1);
        })
  split_path-EndsAt s none (some q) e f k = (sym e, λ g. cc)
  split_path-EndsAt s (some root) (some q) e f k =
      on_stat-EndsAt (some s) (some q) root _ _ _ _ (sym e) (ground arith) refl
        (record {
          dir_covers = slice-Covers 0 q (omega arith);
          no_name = slice-empty 0;
          no_main = slice-empty q;
          no_ext = slice-empty q;
          param_covers = slice-Covers (q + 1) n (omega (arith, k.1));
        })
        (record {
          dir_covers = slice-Covers 0 s (omega arith);
          name_covers = slice-Covers (s + 1) q k.0;
          main_covers = slice-Covers (s + 1) q k.0;
          ext_covers = slice-Covers_empty q (s + 1);
          param_covers = slice-Covers (q + 1) n (omega (arith, k.1));
        })
