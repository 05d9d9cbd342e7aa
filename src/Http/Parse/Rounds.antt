-- ===== src/Http/Parse/Rounds.antt =====
-- Each round of `ParseHttpBuffer` (src/fasterhttp.c) that goes on comes nearer to the end.
use hetao.Base.{
  ℕ, zero, suc, ◌+◌, ◌-◌, ◌*◌, ◌≤◌, ◌<◌, ◌≡◌, refl, ◌⊎◌, inl, inr, Bool, Option, none, some, arith,
  ◌==◌, Bool-cases, Option-cases,
}
use hetao.Http.Body.{
  step_body, add_size_digit, read_size, end_size, after_size, step_chunked_size, step_chunked_data,
}
use hetao.Http.HeaderLine.{
  p_header, go_parsing_body, step_header_name0, step_header_name, step_header_value0,
}
use hetao.Http.HeaderValue.{
  next_header, after_header, ended_header, store_header, end_header, step_header_value,
}
use hetao.Http.Parse.{dispatch}
use hetao.Http.Scan.{
  Next, jump, find, newline, is_newline, not_space, space_or_newline, colon_or_newline, name_end,
}
use hetao.Http.Scan.Walks.{find_range}
use hetao.Http.StartLine.{
  begin_field, end_field, end_line, step_method0, accept_method, step_method, step_uri0, step_uri,
  step_version0, accept_version, step_request_version, step_response_version, step_statuscode0,
  step_statuscode, step_reasonphrase0, step_reasonphrase,
}
use hetao.Http.Types.{
  Memory, HttpBuffer, BufferName, HttpHeader, HttpHeaders, ParseStep, begin, request_method0,
  request_method, request_uri0, request_uri, request_version0, request_version, response_version0,
  response_version, response_statuscode0, response_statuscode, response_reasonphrase0,
  response_reasonphrase, header_name0, header_name, header_value0, header_value, body, chunked_size,
  chunked_data, done, HttpEnv, Code,
}

-- The data not yet read, twice; the step CHUNKED_DATA reads from `chunked_body`, not from `p`.
abbrev pub measure_at : ParseStep → HttpBuffer → HttpEnv → ℕ → ℕ
measure_at chunked_data b e p = 2 * (b.fill_ptr - e.chunked_body) + 1
measure_at _ b e p = 2 * (b.fill_ptr - p)

abbrev pub measure : HttpBuffer → HttpEnv → ℕ → ℕ
measure b e p = measure_at e.parse_step b e p

abbrev pub Shrinks : ℕ → ℕ → Next → Type 0
Shrinks fill m (jump b e p) = (b.fill_ptr ≡ fill) × (measure b e p < m)
Shrinks fill m _ = Unit {0}

abbrev Moves : ℕ → ℕ → Next → Type 0
Moves fill p n = Shrinks fill (2 * (fill - p)) n

module _ (b : HttpBuffer) (e : HttpEnv) (p : ℕ) where
  begin_field-Shrinks :
      (c : Code) (begun : ℕ → HttpEnv)
      → ((q : ℕ) → measure b (begun q) (q + 1) ≡ 2 * (b.fill_ptr - (q + 1)))
      → Moves b.fill_ptr p (begin_field c begun b e p)
  unfolding begin_field
  begin_field-Shrinks c begun h = ground (arith, find_range not_space b p, h (find not_space b p))

  end_field-Shrinks :
      (ended : ℕ → Next)
      → ((q : ℕ) → q < b.fill_ptr → Moves b.fill_ptr q (ended q))
      → Moves b.fill_ptr p (end_field ended b e p)
  unfolding end_field
  end_field-Shrinks ended h =
      ground (arith, find_range space_or_newline b p, h (find space_or_newline b p))

  end_line-Shrinks :
      (ended : ℕ → Next)
      → ((q : ℕ) → q < b.fill_ptr → Moves b.fill_ptr q (ended q))
      → Moves b.fill_ptr p (end_line ended b e p)
  unfolding end_line
  end_line-Shrinks ended h = ground (arith, find_range is_newline b p, h (find is_newline b p))

  accept_method-Shrinks :
      (h : HttpHeaders) → p < b.fill_ptr → Moves b.fill_ptr p (accept_method b e p h)
  unfolding accept_method
  accept_method-Shrinks h l = ground arith

  accept_version-Shrinks :
      (next : ParseStep) (len : ℕ) (h : HttpHeaders)
      → (next ≡ header_name0) ⊎ (next ≡ response_statuscode0)
      → p < b.fill_ptr
      → Moves b.fill_ptr p (accept_version next b e p len h)
  unfolding accept_version
  accept_version-Shrinks next len h n l = ground arith

  go_parsing_body-Shrinks :
      (i : Bool) (name : BufferName) (s : ℕ)
      → s < p
      → p ≤ b.fill_ptr
      → Moves b.fill_ptr s (go_parsing_body i name b e p)
  unfolding go_parsing_body
  go_parsing_body-Shrinks i name s l m = ground arith

  after_header-Shrinks :
      (realloc_succeeds : ℕ → Bool) (f : HttpHeader) (h : HttpHeaders) (s : ℕ)
      → s < p
      → p ≤ b.fill_ptr
      → Moves b.fill_ptr s (after_header realloc_succeeds b e p f h)
  unfolding after_header next_header
  after_header-Shrinks realloc_succeeds f h s l m = ground arith

  end_size-Shrinks : (s : ℕ) → s < p → p ≤ b.fill_ptr → Moves b.fill_ptr s (end_size b e p)
  unfolding end_size
  end_size-Shrinks s l m = ground arith

module _ (b : HttpBuffer) (e : HttpEnv) (p : ℕ) where
  step_header_name0-Shrinks :
      (name : BufferName) → Moves b.fill_ptr p (step_header_name0 name b e p)
  unfolding step_header_name0 go_parsing_body
  step_header_name0-Shrinks name = ground (arith, find_range not_space b p)

  step_header_name-Shrinks : Moves b.fill_ptr p (step_header_name b e p)
  unfolding step_header_name
  step_header_name-Shrinks =
      ground (arith, find_range name_end b p, find_range colon_or_newline b (find name_end b p))

  step_header_value-Shrinks :
      (realloc_succeeds : ℕ → Bool) (name : BufferName)
      → Moves b.fill_ptr p (step_header_value realloc_succeeds name b e p)
  unfolding step_header_value
  step_header_value-Shrinks realloc_succeeds name =
      end_line-Shrinks b e p (end_header realloc_succeeds name b e) (λ q l.
        let f = ended_header b.base q (p_header e.headers) in
        let h = store_header b.base b.buf_size name f e.headers in
        unfold end_header in
        after_header-Shrinks b e (q + 1) realloc_succeeds f h q (omega arith) (omega arith))

pub read_size_range :
    (base : Memory) (n q total digits : ℕ) {q' total' digits' : ℕ}
    → read_size base n q total digits ≡ some (q', total', digits')
    → (q ≤ q') × (q' ≤ q + n)
unfolding read_size
read_size_range base zero q total digits h = ground arith
read_size_range base (suc n) q total digits h = elim (Bool-cases (base q == newline)) [
  | inl e ↦ ground arith
  | inr e ↦ elim (Option-cases (add_size_digit (base q) total)) [
    | inl u ↦ cc (rw (e, u) at h)
    | inr (total', u) ↦
        let r = read_size_range base n (suc q) total' (digits + 1) (rw (e, u) at h) in
        (omega arith, omega arith)
  ]
]

module _ (b : HttpBuffer) (e : HttpEnv) (p : ℕ) where
  after_size-Shrinks :
      (o : Option (ℕ × ℕ × ℕ))
      → ((q total digits : ℕ) → o ≡ some (q, total, digits) → p ≤ q)
      → Moves b.fill_ptr p (after_size b e o)
  unfolding after_size end_size
  after_size-Shrinks none h = tt
  after_size-Shrinks (some (q, total, digits)) h = ground (arith, h q total digits refl)

  step_chunked_size-Shrinks : Moves b.fill_ptr p (step_chunked_size b e p)
  unfolding step_chunked_size
  step_chunked_size-Shrinks =
      after_size-Shrinks
        (read_size b.base (b.fill_ptr - p) p e.chunked_length e.chunked_length_length)
        (λ q total digits u.
          (read_size_range b.base (b.fill_ptr - p) p e.chunked_length e.chunked_length_length u).0)

  step_chunked_data-Shrinks :
      Shrinks b.fill_ptr (2 * (b.fill_ptr - e.chunked_body) + 1) (step_chunked_data b e)
  unfolding step_chunked_data
  step_chunked_data-Shrinks = ground arith

  -- A round that goes on leaves `fill_ptr` alone and lessens the measure.
  pub dispatch-Shrinks :
      (realloc_succeeds : ℕ → Bool) (name : BufferName) (s : ParseStep)
      → Shrinks b.fill_ptr (measure_at s b e p) (dispatch realloc_succeeds name s b e p)
  unfolding dispatch step_method0 step_method step_uri0 step_uri step_version0 step_request_version
      step_response_version step_statuscode0 step_statuscode step_reasonphrase0 step_reasonphrase
      step_header_value0 step_body
  dispatch-Shrinks realloc_succeeds name begin = tt
  dispatch-Shrinks realloc_succeeds name request_method0 = begin_field-Shrinks b e p _ _ (λ q. refl)
  dispatch-Shrinks realloc_succeeds name request_method =
      end_field-Shrinks b e p _ (λ q l. accept_method-Shrinks b e q _ l)
  dispatch-Shrinks realloc_succeeds name request_uri0 = begin_field-Shrinks b e p _ _ (λ q. refl)
  dispatch-Shrinks realloc_succeeds name request_uri =
      end_field-Shrinks b e p _ (λ q l. (refl, omega arith))
  dispatch-Shrinks realloc_succeeds name request_version0 =
      begin_field-Shrinks b e p _ _ (λ q. refl)
  dispatch-Shrinks realloc_succeeds name request_version =
      end_line-Shrinks b e p _ (λ q l. accept_version-Shrinks b e q header_name0 _ _ (inl refl) l)
  dispatch-Shrinks realloc_succeeds name response_version0 =
      begin_field-Shrinks b e p _ _ (λ q. refl)
  dispatch-Shrinks realloc_succeeds name response_version =
      end_field-Shrinks b e p _
        (λ q l. accept_version-Shrinks b e q response_statuscode0 _ _ (inr refl) l)
  dispatch-Shrinks realloc_succeeds name response_statuscode0 =
      begin_field-Shrinks b e p _ _ (λ q. refl)
  dispatch-Shrinks realloc_succeeds name response_statuscode =
      end_field-Shrinks b e p _ (λ q l. (refl, omega arith))
  dispatch-Shrinks realloc_succeeds name response_reasonphrase0 =
      begin_field-Shrinks b e p _ _ (λ q. refl)
  dispatch-Shrinks realloc_succeeds name response_reasonphrase =
      end_line-Shrinks b e p _ (λ q l. (refl, omega arith))
  dispatch-Shrinks realloc_succeeds name header_name0 = step_header_name0-Shrinks b e p name
  dispatch-Shrinks realloc_succeeds name header_name = step_header_name-Shrinks b e p
  dispatch-Shrinks realloc_succeeds name header_value0 = begin_field-Shrinks b e p _ _ (λ q. refl)
  dispatch-Shrinks realloc_succeeds name header_value =
      step_header_value-Shrinks b e p realloc_succeeds name
  dispatch-Shrinks realloc_succeeds name body = ground arith
  dispatch-Shrinks realloc_succeeds name chunked_size = step_chunked_size-Shrinks
  dispatch-Shrinks realloc_succeeds name chunked_data = step_chunked_data-Shrinks
  dispatch-Shrinks realloc_succeeds name done = tt
