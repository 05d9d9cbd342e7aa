-- ===== src/Http/Query/First.antt =====
-- What the loops over the headers in src/fasterhttp.c find.
use hetao.Base.{
  ℕ, zero, suc, ◌+◌, ◌≤◌, ◌<◌, ◌≡◌, inl, inr, Bool, true, false, Option, none, some, List, arith,
  ◌==◌, Bool-cases, get_or,
}
use hetao.Http.Query.{find_header}
use hetao.Http.Types.{HttpHeader, zero_header}

-- None from `i` up to `e` passes.
abbrev pub Fails : (HttpHeader → Bool) → List HttpHeader → ℕ → ℕ → Type 0
Fails test array i e = (j : ℕ) → i ≤ j → j < e → test (get_or array j zero_header) ≡ false

-- `some k` where `k` is the first from `i` up to `e` that passes; none where none passes.
abbrev pub First : (HttpHeader → Bool) → List HttpHeader → ℕ → ℕ → Option ℕ → Type 0
First test array i e none = Fails test array i e
First test array i e (some k) =
    (i ≤ k) × (k < e) × (test (get_or array k zero_header) ≡ true) × Fails test array i k

module _ (test : HttpHeader → Bool) (array : List HttpHeader) where
  Fails-earlier :
      (i e : ℕ)
      → test (get_or array i zero_header) ≡ false
      → Fails test array (suc i) e
      → Fails test array i e
  Fails-earlier i e h f j l l' = elim (Bool-cases (i == j)) [
    | inl t ↦ let same : j ≡ i = ground arith in rw same h
    | inr t ↦ f j (ground arith) l'
  ]

  First-earlier :
      (i e : ℕ) (o : Option ℕ)
      → test (get_or array i zero_header) ≡ false
      → First test array (suc i) e o
      → First test array i e o
  First-earlier i e none h f = Fails-earlier i e h f
  First-earlier i e (some k) h (l, l', t, f) = (omega arith, l', t, Fails-earlier i k h f)

  -- A loop finds the first header that passes its test.
  pub find_header-First :
      (n i e : ℕ) → i + n ≡ e → First test array i e (find_header test array n i)
  unfolding find_header
  find_header-First zero i e h = λ j l l'. absurd (omega arith)
  find_header-First (suc n) i e h = elim (Bool-cases (test (get_or array i zero_header))) [
    | inl t ↦ rw t (omega arith, omega arith, t, λ j l l'. absurd (omega arith))
    | inr t ↦ rw t (
        First-earlier i e (find_header test array n (suc i)) t
          (find_header-First n (suc i) e (omega arith)))
  ]
