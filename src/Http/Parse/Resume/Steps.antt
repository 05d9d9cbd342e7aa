-- ===== src/Http/Parse/Resume/Steps.antt =====
-- The steps of the start line (src/fasterhttp.c, ParseHttpBuffer) on the first piece of a message
-- and on all of it.
use hetao.Base.{
  ℕ, suc, ◌+◌, ◌≤◌, ◌<◌, ◌≡◌, refl, inl, inr, Bool, true, false, arith, leb, ◌==◌, leb→le, leb→gt,
  gt→leb, Bool-cases,
}
use hetao.Http.Parse.{dispatch}
use hetao.Http.Parse.Resume.Walk.{Extends, find-same, find-more}
use hetao.Http.Parse.Runs.{again}
use hetao.Http.Scan.{
  Next, jump, stop, undefined, find, newline, is_newline, not_space, space_or_newline,
}
use hetao.Http.Scan.Walks.{find_range, find-stops}
use hetao.Http.StartLine.{begin_field, end_field, end_line, method_of, version_of}
use hetao.Http.Types.{
  Memory, HttpBuffer, BufferName, Version, ParseStep, request_method0, request_method, request_uri0,
  request_uri, request_version0, request_version, response_version0, response_version,
  response_statuscode0, response_statuscode, response_reasonphrase0, response_reasonphrase, HttpEnv,
  Code, need_more_http_buffer,
}

module _ (base base' : Memory) (p len : ℕ)
    (same : (i : ℕ) → p ≤ i → i < p + len → base' i ≡ base i) where
  pub method_of-same : method_of base' p len ≡ method_of base p len
  unfolding method_of
  method_of-same = elim (Bool-cases (len == 3)) [
    | inl e3 ↦
        let n : len ≡ 3 = ground arith in
        rw (
          e3,
          same p (omega arith) (omega arith),
          same (suc p) (omega arith) (omega arith),
          same (suc (suc p)) (omega arith) (omega arith),
        )
    | inr e3 ↦ elim (Bool-cases (len == 4)) [
      | inl e4 ↦
          let n : len ≡ 4 = ground arith in
          rw (
            e3,
            e4,
            same p (omega arith) (omega arith),
            same (suc p) (omega arith) (omega arith),
            same (suc (suc p)) (omega arith) (omega arith),
            same (suc (suc (suc p))) (omega arith) (omega arith),
          )
      | inr e4 ↦ elim (Bool-cases (len == 5)) [
        | inl e5 ↦
            let n : len ≡ 5 = ground arith in
            rw (
              e3,
              e4,
              e5,
              same p (omega arith) (omega arith),
              same (suc p) (omega arith) (omega arith),
              same (suc (suc p)) (omega arith) (omega arith),
              same (suc (suc (suc p))) (omega arith) (omega arith),
              same (suc (suc (suc (suc p)))) (omega arith) (omega arith),
            )
        | inr e5 ↦ elim (Bool-cases (len == 6)) [
          | inl e6 ↦
              let n : len ≡ 6 = ground arith in
              rw (
                e3,
                e4,
                e5,
                e6,
                same p (omega arith) (omega arith),
                same (suc p) (omega arith) (omega arith),
                same (suc (suc p)) (omega arith) (omega arith),
                same (suc (suc (suc p))) (omega arith) (omega arith),
                same (suc (suc (suc (suc p)))) (omega arith) (omega arith),
                same (suc (suc (suc (suc (suc p))))) (omega arith) (omega arith),
              )
          | inr e6 ↦ elim (Bool-cases (len == 7)) [
            | inl e7 ↦
                let n : len ≡ 7 = ground arith in
                rw (
                  e3,
                  e4,
                  e5,
                  e6,
                  e7,
                  same p (omega arith) (omega arith),
                  same (suc p) (omega arith) (omega arith),
                  same (suc (suc p)) (omega arith) (omega arith),
                  same (suc (suc (suc p))) (omega arith) (omega arith),
                  same (suc (suc (suc (suc p)))) (omega arith) (omega arith),
                  same (suc (suc (suc (suc (suc p))))) (omega arith) (omega arith),
                  same (suc (suc (suc (suc (suc (suc p)))))) (omega arith) (omega arith),
                )
            | inr e7 ↦ rw (e3, e4, e5, e6, e7)
          ]
        ]
      ]
    ]
  ]

  pub version_of-same : (old : Version) → version_of base' p len old ≡ version_of base p len old
  unfolding version_of
  version_of-same old = elim (Bool-cases (len == 8)) [
    | inl e ↦
        let n : len ≡ 8 = ground arith in
        rw (
          same p (omega arith) (omega arith),
          same (suc p) (omega arith) (omega arith),
          same (suc (suc p)) (omega arith) (omega arith),
          same (suc (suc (suc p))) (omega arith) (omega arith),
          same (suc (suc (suc (suc p)))) (omega arith) (omega arith),
          same (suc (suc (suc (suc (suc p))))) (omega arith) (omega arith),
          same (suc (suc (suc (suc (suc (suc p)))))) (omega arith) (omega arith),
          same (p + 7) (omega arith) (omega arith),
        )
    | inr e ↦ rw e
  ]

-- A step of the start line's fields.
abbrev pub is_start_line : ParseStep → Bool
is_start_line request_method0 = true
is_start_line request_method = true
is_start_line request_uri0 = true
is_start_line request_uri = true
is_start_line request_version0 = true
is_start_line request_version = true
is_start_line response_version0 = true
is_start_line response_version = true
is_start_line response_statuscode0 = true
is_start_line response_statuscode = true
is_start_line response_reasonphrase0 = true
is_start_line response_reasonphrase = true
is_start_line _ = false

-- No newline from `p` on in the data.
abbrev pub NoNewline : HttpBuffer → ℕ → Type 0
NoNewline b p = (i : ℕ) → p ≤ i → i < b.fill_ptr → (b.base i == newline) ≡ false

module _ (realloc_succeeds : ℕ → Bool) (name : BufferName) (b c : HttpBuffer)
    (x : Extends b c) where
  -- What a round on `b` says of the same round on `c`: it goes on in the same way, or the round on
  -- `c` is the one that resumes where the round on `b` needs more data.
  abbrev pub Continues : ℕ → Next → Next → Type 0
  Continues p (jump b' e' p') n =
      (b' ≡ b)
      × (p < p')
      × (p' ≤ b.fill_ptr)
      × (is_start_line e'.parse_step ≡ true)
      × (n ≡ jump c e' p')
  Continues p (stop b' e' code) n =
      code ≡ need_more_http_buffer
      → (is_start_line e'.parse_step ≡ true)
        × (n ≡ dispatch realloc_succeeds name e'.parse_step c e' b'.process_ptr)
  Continues p undefined n = Unit {0}

  module _ (e : HttpEnv) (p : ℕ) (l : p ≤ b.fill_ptr) (one_line : NoNewline b p)
      (at_start : is_start_line e.parse_step ≡ true) where
    pub begin_field-Continues :
        (refusal : Code) (begun : ℕ → HttpEnv)
        → ((q : ℕ) → is_start_line (begun q).parse_step ≡ true)
        → ((q : ℕ)
            → dispatch realloc_succeeds name e.parse_step c e q ≡ begin_field refusal begun c e q)
        → Continues p (begin_field refusal begun b e p) (begin_field refusal begun c e p)
    unfolding begin_field
    begin_field-Continues refusal begun starts again =
        let q = find not_space b p in
        let r = find_range not_space b p in
        elim (Bool-cases (leb b.fill_ptr q)) [
          | inl f ↦
              let l' = leb→le _ _ f in
              rw (f, again q, find-more b c x not_space p l l') (λ u. (at_start, refl))
          | inr f ↦
              let inside : q < b.fill_ptr = leb→gt _ _ f in
              let there : find not_space c p ≡ q = find-same b c x not_space p inside in
              let outside : leb c.fill_ptr q ≡ false = gt→leb _ _ (omega (arith, x.longer)) in
              let plain : (b.base q == newline) ≡ false = one_line q r.0 inside in
              rw (f, plain)
                (
                  refl,
                  omega (arith, r),
                  omega arith,
                  starts q,
                  rw (there, outside, x.agrees q inside, plain),
                )
        ]

    pub end_field-Continues :
        (ended ended' : ℕ → Next)
        → ((q : ℕ) → p ≤ q → q < b.fill_ptr → Continues p (ended q) (ended' q))
        → ((q : ℕ) → dispatch realloc_succeeds name e.parse_step c e q ≡ end_field ended' c e q)
        → Continues p (end_field ended b e p) (end_field ended' c e p)
    unfolding end_field
    end_field-Continues ended ended' goes_on again =
        let q = find space_or_newline b p in
        let r = find_range space_or_newline b p in
        elim (Bool-cases (leb b.fill_ptr q)) [
          | inl f ↦
              let l' = leb→le _ _ f in
              rw (f, again q, find-more b c x space_or_newline p l l') (λ u. (at_start, refl))
          | inr f ↦
              let inside : q < b.fill_ptr = leb→gt _ _ f in
              let there : find space_or_newline c p ≡ q =
                find-same b c x space_or_newline p inside in
              let outside : leb c.fill_ptr q ≡ false = gt→leb _ _ (omega (arith, x.longer)) in
              let plain : (b.base q == newline) ≡ false = one_line q r.0 inside in
              rw (f, plain, there, outside, x.agrees q inside, plain) (goes_on q r.0 inside)
        ]

    pub end_line-Continues :
        (ended ended' : ℕ → Next)
        → ((q : ℕ) → dispatch realloc_succeeds name e.parse_step c e q ≡ end_line ended' c e q)
        → Continues p (end_line ended b e p) (end_line ended' c e p)
    unfolding end_line
    end_line-Continues ended ended' again =
        let q = find is_newline b p in
        let r = find_range is_newline b p in
        elim (Bool-cases (leb b.fill_ptr q)) [
          | inl f ↦
              let l' = leb→le _ _ f in
              rw (f, again q, find-more b c x is_newline p l l') (λ u. (at_start, refl))
          | inr f ↦
              let inside : q < b.fill_ptr = leb→gt _ _ f in
              let plain : (b.base q == newline) ≡ false = one_line q r.0 inside in
              let stops = find-stops is_newline b p inside in cc
        ]
