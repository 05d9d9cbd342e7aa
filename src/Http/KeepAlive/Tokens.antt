-- ===== src/Http/KeepAlive/Tokens.antt =====
-- What is set is what is checked, and what a token is (src/fasterhttp.c).
use hetao.Base.{
  ℕ, zero, suc, ◌+◌, ◌-◌, ◌≤◌, ◌<◌, ◌≡◌, refl, sym, ap, ◌∙◌, ◌≢◌, inl, inr, Bool, true, false,
  Option, none, some, arith, leb, ◌==◌, if◌then◌else◌, leb→le, leb→gt, Bool-cases,
}
use hetao.Base.Int.{pos}
use hetao.Http.KeepAlive.{
  keeps_alive, check_http_keep_alive, keepalive_off, set_http_keep_alive, not_separator, ends_text,
  ends_token, token_http_header_value,
}
use hetao.Http.Scan.{scan}
use hetao.Http.Scan.Walks.{scan_range, scan-stops}
use hetao.Http.Types.{Memory, Version, no_version, version_1_0, version_1_1, HttpEnv}

keeps_alive_set :
    (v : Version) (k : Bool)
    → v ≢ no_version
    → keeps_alive v (if k then pos 1 else keepalive_off v) ≡ k
keeps_alive_set no_version k h = absurd (h refl)
keeps_alive_set version_1_0 true h = refl
keeps_alive_set version_1_0 false h = refl
keeps_alive_set version_1_1 true h = refl
keeps_alive_set version_1_1 false h = refl

-- `CheckHttpKeepAlive` answers what `SetHttpKeepAlive` was given last, in a message of a known
-- version.
pub check-set_http_keep_alive :
    (e : HttpEnv) (keepalive : Bool)
    → e.headers.version ≢ no_version
    → check_http_keep_alive (set_http_keep_alive e keepalive) ≡ keepalive
unfolding check_http_keep_alive set_http_keep_alive
check-set_http_keep_alive e keepalive h = keeps_alive_set e.headers.version keepalive h

scan-passes :
    (stops : ℕ → Bool) (base : Memory) (n p i : ℕ)
    → p ≤ i
    → i < scan stops base n p
    → stops (base i) ≡ false
unfolding scan
scan-passes stops base zero p i l h = absurd (omega arith)
scan-passes stops base (suc n) p i l h = elim (Bool-cases (stops (base p))) [
  | inl e ↦ let h' : i < p = rw e at h in absurd (omega arith)
  | inr e ↦
      let h' : i < scan stops base n (suc p) = rw e at h in
      elim (Bool-cases (i == p)) [
        | inl t ↦ let same : i ≡ p = ground arith in rw same e
        | inr t ↦ scan-passes stops base n (suc p) i (ground arith) h'
      ]
]

-- A walk that would stop at `e` stops there at the latest.
scan-until :
    (stops : ℕ → Bool) (base : Memory) (n p e : ℕ)
    → p ≤ e
    → e < p + n
    → stops (base e) ≡ true
    → scan stops base n p ≤ e
scan-until stops base n p e l h s = elim (Bool-cases (leb (scan stops base n p) e)) [
  | inl t ↦ leb→le (scan stops base n p) e t
  | inr t ↦
      let passed = scan-passes stops base n p e l (leb→gt (scan stops base n p) e t) in
      ground (arith, passed, s)
]

inside_token : (c : ℕ) → not_separator c ≡ true → ends_text c ≡ false → ends_token c ≡ false
inside_token c h k = ground arith

-- From `p` on: separators, then a token up to a byte that ends it; or no token.
abbrev pub Token : Memory → ℕ → ℕ → Option (ℕ × ℕ) → Type 0
Token str p e none =
    (q : ℕ) × (p ≤ q)
    × (q ≤ e)
    × ((i : ℕ) → p ≤ i → i < q → not_separator (str i) ≡ false)
    × (ends_text (str q) ≡ true)
Token str p e (some (q, r)) =
    (p ≤ q)
    × (q < r)
    × (r ≤ e)
    × ((i : ℕ) → p ≤ i → i < q → not_separator (str i) ≡ false)
    × ((i : ℕ) → q ≤ i → i < r → ends_token (str i) ≡ false)
    × (ends_token (str r) ≡ true)

-- `TokenHttpHeaderValue` on a text with its NUL at `e` skips separators and returns the token behind
-- them, which is not empty, up to the byte that ends it and inside the text; it returns NULL exactly
-- where a line end or the NUL stands behind the separators.
pub token_http_header_value-Token :
    (str : Memory) (n p e : ℕ)
    → p ≤ e
    → e < p + n
    → str e ≡ 0
    → Token str p e (token_http_header_value str n p)
unfolding token_http_header_value
token_http_header_value-Token str n p e l h z =
    let q = scan not_separator str n p in
    let m = n - (q - p) in
    let r = scan ends_token str m q in
    let (from, to) = scan_range not_separator str n p in
    let before = scan-passes not_separator str n p in
    let q_le = scan-until not_separator str n p e l h (rw z refl) in
    elim (Bool-cases (ends_text (str q))) [
      | inl t ↦ rw t (q, from, q_le, before, t)
      | inr t ↦
          let inside : e < q + m = omega arith in
          let r_le = scan-until ends_token str m q e q_le inside (rw z refl) in
          let (from', to') = scan_range ends_token str m q in
          let stopped = scan-stops ends_token str m q (omega arith) in
          let word = inside_token (str q) (scan-stops not_separator str n p (omega arith)) t in
          elim (Bool-cases (r == q)) [
            | inl u ↦
                let same : r ≡ q = ground arith in
                absurd (ground (arith, word, sym (ap (λ x. ends_token (str x)) same) ∙ stopped))
            | inr u ↦
                rw (t, u)
                  (from, ground arith, r_le, before, scan-passes ends_token str m q, stopped)
          ]
    ]
