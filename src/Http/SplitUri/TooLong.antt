-- ===== src/Http/SplitUri/TooLong.antt =====
-- The case "/mydir/index.html" of `SplitHttpUri` (src/fasterhttp.c).
use hetao.Base.{
  ℕ, zero, suc, ◌+◌, ◌-◌, ◌≤◌, ◌<◌, ◌≡◌, refl, sym, ap, ◌≢◌, ◌⊎◌, inl, inr, false, Option, none,
  some, List, arith, ◌==◌, Bool-cases,
}
use hetao.Base.Int.{pos}
use hetao.Http.SplitUri.{
  HttpUri, Stat, split, last_slash, marks, see_byte, find_marks, split_path_file, split_at,
  split_http_uri,
}
use hetao.Http.SplitUri.Loops.{Lacks}
use hetao.Http.Types.{Memory}

last_slash-at :
    (uri : Memory) (n s : ℕ)
    → s < n
    → uri s ≡ b'/'
    → Lacks uri b'/' (s + 1) n
    → last_slash uri n ≡ some s
unfolding last_slash
last_slash-at uri zero s h e l = absurd (omega arith)
last_slash-at uri (suc p) s h e l = elim (Bool-cases (s == p)) [
  | inl t ↦
      let same : s ≡ p = ground arith in
      let here : uri p ≡ b'/' = rw (sym same) e in rw here (ap some (sym same))
  | inr t ↦
      let differs : (uri p == b'/') ≡ false = ground (arith, l p (ground arith) (omega arith)) in
      rw differs (last_slash-at uri p s (ground arith) e (λ i g g'. l i g (omega arith)))
]

-- Bytes without a question mark leave the dots to be seen.
find_marks-dot :
    (uri : Memory) (n p : ℕ) (o : Option ℕ)
    → Lacks uri b'?' p (p + n)
    → (o ≢ none) ⊎ ((d : ℕ) × (p ≤ d) × (d < p + n) × (uri d ≡ b'.'))
    → (d : ℕ) × (find_marks uri n p (marks o none) ≡ marks (some d) none)
unfolding find_marks see_byte
find_marks-dot uri zero p none l h = elim h [
  | inl f ↦ absurd (f refl)
  | inr (d, g, g', e) ↦ absurd (omega arith)
]
find_marks-dot uri zero p (some d) l h = (d, refl)
find_marks-dot uri (suc n) p o l h =
    let no_question : (uri p == b'?') ≡ false = ground (arith, l p (omega arith) (omega arith)) in
    let l' : Lacks uri b'?' (suc p) (suc p + n) = λ i g g'. l i (omega arith) (omega arith) in
    elim (Bool-cases (uri p == b'.')) [
      | inl e ↦ rw e (find_marks-dot uri n (suc p) (some p) l' (inl (λ f. ground arith)))
      | inr e ↦
          rw (e, no_question)
            (find_marks-dot uri n (suc p) o l' (elim h [
              | inl f ↦ inl f
              | inr (d, g, g', at) ↦ inr (d, ground arith, omega arith, at)
            ]))
    ]

module _ (stat : List ℕ → Stat) (wwwroot : Option (List ℕ)) (uri : Memory) (n : ℕ) where
  split_path_file-too_long :
      (s d : ℕ)
      → s < n
      → last_slash uri n ≡ some s
      → find_marks uri (n - (s + 1)) (s + 1) (marks none none) ≡ marks (some d) none
      → (u : HttpUri) × (split_http_uri stat wwwroot uri n ≡ split u)
        × (u.filename.slice_len ≡ pos (n - s))
        × (u.filename.slice_base ≡ s + 1)
  unfolding split_http_uri split_at split_path_file
  split_path_file-too_long s d h e k = rw (e, k) (_, refl, ground arith, refl)

  -- A URI with a slash, a dot behind its last slash, and no question mark there is split with a
  -- file's name that has one byte more than stands between the slash and the URI's end.
  pub split_http_uri-too_long :
      (s d : ℕ)
      → (s < n) × (uri s ≡ b'/') × Lacks uri b'/' (s + 1) n
      → (s < d) × (d < n) × (uri d ≡ b'.')
      → Lacks uri b'?' (s + 1) n
      → (u : HttpUri) × (split_http_uri stat wwwroot uri n ≡ split u)
        × (u.filename.slice_len ≡ pos (n - s))
        × (u.filename.slice_base ≡ s + 1)
  split_http_uri-too_long s d slash dot l =
      let (d', k) =
        find_marks-dot uri (n - (s + 1)) (s + 1) none (λ i g g'. l i g (omega arith))
          (inr (d, omega (arith, dot.0), omega (arith, dot.1, slash.0), dot.2)) in
      split_path_file-too_long s d' slash.0 (last_slash-at uri n s slash.0 slash.1 slash.2) k
