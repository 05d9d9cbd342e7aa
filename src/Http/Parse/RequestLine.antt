-- ===== src/Http/Parse/RequestLine.antt =====
-- A request line in `ParseHttpBuffer` (src/fasterhttp.c): what the parser records of it.
use hetao.Base.{
  ℕ, suc, ◌+◌, ◌-◌, ◌*◌, ◌≤◌, ◌<◌, ◌≡◌, refl, sym, ap, ◌∙◌, ◌≢◌, inl, inr, Bool, some, arith, ◌==◌,
  Bool-cases,
}
use hetao.Base.Int.{pos}
use hetao.Http.Parse.{dispatch, run, first_step, enter, parse_http_buffer}
use hetao.Http.Parse.Total.{run-rounds, measure_at-lt}
use hetao.Http.Scan.{jump, newline, carriage_return}
use hetao.Http.StartLine.{
  begin_value, end_value, method_of, version_of, with_headers, step_method0, accept_method,
  step_method, step_uri0, step_uri, step_version0, accept_version, line_end, step_request_version,
}
use hetao.Http.StartLine.Fields.{Word, begin_field-at, end_field-at, end_line-at}
use hetao.Http.Types.{
  Memory, HttpBuffer, BufferName, request_buffer, HttpHeader, Method, Version, HttpHeaders,
  ParseStep, begin, request_method0, request_method, request_uri0, request_uri, request_version0,
  request_version, header_name0, HttpEnv,
}
use mathlib.Core.Path.{subst}

-- At `p` stands a method up to `m`, a URI up to `u` and a version up to `v`, parted by one space
-- each and ended by a carriage return and a newline, whole in the data.
pub record RequestLine (b : HttpBuffer) (p m u v : ℕ) : Type 0 where
  pub method_word : Word b.base p m
  pub method_some : p < m
  pub method_end : b.base m ≡ b' '
  pub uri_word : Word b.base (m + 1) u
  pub uri_some : m + 1 < u
  pub uri_end : b.base u ≡ b' '
  pub version_word : Word b.base (u + 1) v
  pub version_some : u + 1 < v
  pub version_end : b.base v ≡ carriage_return
  pub line_ends : b.base (v + 1) ≡ newline
  pub whole : v + 1 < b.fill_ptr

-- A field of `len` bytes at `offset`.
abbrev pub field_at : BufferName → ℕ → ℕ → HttpHeader → HttpHeader
field_at name offset len h = record h {
  p_buffer = some name;
  value_offset = offset;
  value_len = pos len;
}

-- The fields recorded.
abbrev pub line_recorded : BufferName → HttpEnv → ℕ → ℕ → ℕ → ℕ → Method → Version → HttpEnv
line_recorded name e p m u v method version = record e {
  parse_step = header_name0;
  headers = record e.headers {
    method_header = field_at name p (m - p) e.headers.method_header;
    method = method;
    uri_header = field_at name (m + 1) (u - (m + 1)) e.headers.uri_header;
    version_header = field_at name (u + 1) (v - (u + 1)) e.headers.version_header;
    version = version;
  };
}

pub line_end-at : (base : Memory) (v : ℕ) → base v ≡ carriage_return → line_end base (v + 1) ≡ v
line_end-at base v h = let back : v + 1 - 1 ≡ v = omega arith in rw (back, h) refl

-- A round that goes on.
pub run-jump :
    (realloc_succeeds : ℕ → Bool) (name : BufferName) (b : HttpBuffer) (k : ℕ) (e e' : HttpEnv)
    (q q' : ℕ)
    → dispatch realloc_succeeds name e.parse_step b e q ≡ jump b e' q'
    → run realloc_succeeds name (suc k) b e q ≡ run realloc_succeeds name k b e' q'
unfolding run
run-jump realloc_succeeds name b k e e' q q' h = rw h refl

module _ (name : BufferName) (b : HttpBuffer) (p m u v : ℕ) (line : RequestLine b p m u v)
    (method : Method) (version : Version) where
  -- The environment after each step.
  abbrev after_method0 : HttpEnv → HttpEnv
  after_method0 e =
      with_headers e request_method
        (record e.headers { method_header = begin_value name p e.headers.method_header })

  abbrev after_method : HttpEnv → HttpEnv
  after_method e = with_headers e request_uri0 (record e.headers {
    method_header = field_at name p (m - p) e.headers.method_header;
    method = method;
  })

  method0_step : (e : HttpEnv) → step_method0 name b e p ≡ jump b (after_method0 e) (p + 1)
  unfolding step_method0
  method0_step e =
      begin_field-at _ _ b e p m line.method_word line.method_some
        (omega (arith, line.whole, line.version_some, line.uri_some, line.method_some))

  accept_method-some :
      (e : HttpEnv) (q : ℕ) (h : HttpHeaders)
      → method_of b.base h.method_header.value_offset (q - h.method_header.value_offset)
        ≡ some method
      → accept_method b e q h
        ≡ jump b (with_headers e request_uri0 (record h { method = method })) (q + 1)
  unfolding accept_method
  accept_method-some e q h k = rw k refl

  method_step :
      (e : HttpEnv)
      → method_of b.base p (m - p) ≡ some method
      → step_method b (after_method0 e) (p + 1) ≡ jump b (after_method e) (m + 1)
  unfolding step_method
  method_step e k =
      end_field-at _ b (after_method0 e) (p + 1) m (λ i g g'. line.method_word i (omega arith) g')
        (omega (arith, line.method_some))
        (omega (arith, line.whole, line.version_some, line.uri_some)) line.method_end
      ∙ accept_method-some (after_method0 e) m _ k

  abbrev after_uri0 : HttpEnv → HttpEnv
  after_uri0 e = with_headers (after_method e) request_uri (record (after_method e).headers {
    uri_header = begin_value name (m + 1) e.headers.uri_header;
  })

  abbrev after_uri : HttpEnv → HttpEnv
  after_uri e = with_headers (after_method e) request_version0 (record (after_method e).headers {
    uri_header = field_at name (m + 1) (u - (m + 1)) e.headers.uri_header;
  })

  abbrev after_version0 : HttpEnv → HttpEnv
  after_version0 e = with_headers (after_uri e) request_version (record (after_uri e).headers {
    version_header = begin_value name (u + 1) e.headers.version_header;
  })

  uri0_step :
      (e : HttpEnv) → step_uri0 name b (after_method e) (m + 1) ≡ jump b (after_uri0 e) (m + 1 + 1)
  unfolding step_uri0
  uri0_step e =
      begin_field-at _ _ b (after_method e) (m + 1) u line.uri_word line.uri_some
        (omega (arith, line.whole, line.version_some, line.uri_some))

  uri_step : (e : HttpEnv) → step_uri b (after_uri0 e) (m + 1 + 1) ≡ jump b (after_uri e) (u + 1)
  unfolding step_uri
  uri_step e =
      end_field-at _ b (after_uri0 e) (m + 1 + 1) u (λ i g g'. line.uri_word i (omega arith) g')
        (omega (arith, line.uri_some)) (omega (arith, line.whole, line.version_some)) line.uri_end

  version0_step :
      (e : HttpEnv)
      → step_version0 request_version name b (after_uri e) (u + 1)
        ≡ jump b (after_version0 e) (u + 1 + 1)
  unfolding step_version0
  version0_step e =
      begin_field-at _ _ b (after_uri e) (u + 1) v line.version_word line.version_some
        (omega (arith, line.whole, line.version_some))

  accept_version-some :
      (e : HttpEnv) (q len : ℕ) (h : HttpHeaders)
      → version_of b.base h.version_header.value_offset len h.version ≡ some version
      → accept_version header_name0 b e q len h
        ≡ jump b (with_headers e header_name0 (record h { version = version })) (q + 1)
  unfolding accept_version
  accept_version-some e q len h k = rw k refl

  no_newline : (i : ℕ) → u + 1 + 1 ≤ i → i < v + 1 → b.base i ≢ newline
  no_newline i g g' = elim (Bool-cases (i == v)) [
    | inl e ↦
        λ h. let same : i ≡ v = ground arith in ground (arith, ap b.base same, line.version_end)
    | inr e ↦ (line.version_word i (omega arith) (ground arith)).1
  ]

  version_step :
      (e : HttpEnv)
      → version_of b.base (u + 1) (v - (u + 1)) e.headers.version ≡ some version
      → step_request_version b (after_version0 e) (u + 1 + 1)
        ≡ jump b (line_recorded name e p m u v method version) (v + 1 + 1)
  unfolding step_request_version
  version_step e k =
      end_line-at _ b (after_version0 e) (u + 1 + 1) (v + 1) no_newline
        (omega (arith, line.version_some)) line.whole line.line_ends
      ∙ subst
          (λ x.
            accept_version header_name0 b (after_version0 e) (v + 1) (x - (u + 1))
              (record (after_version0 e).headers {
                version_header = end_value x (after_version0 e).headers.version_header;
              })
            ≡ jump b (line_recorded name e p m u v method version) (v + 1 + 1))
          (sym (line_end-at b.base v line.version_end))
          (accept_version-some (after_version0 e) (v + 1) (v - (u + 1)) _ k)

  dispatch-line :
      (realloc_succeeds : ℕ → Bool) (s : ParseStep) (e : HttpEnv)
      → s ≡ request_method0
      → dispatch realloc_succeeds name s b e p ≡ jump b (after_method0 e) (p + 1)
  unfolding dispatch
  dispatch-line realloc_succeeds s e h = rw h (method0_step e)

  -- Six rounds on a request line whose method and version are known record its fields and stand at
  -- the first header.
  pub run-line :
      (realloc_succeeds : ℕ → Bool) (k : ℕ) (e : HttpEnv)
      → e.parse_step ≡ request_method0
      → method_of b.base p (m - p) ≡ some method
      → version_of b.base (u + 1) (v - (u + 1)) e.headers.version ≡ some version
      → run realloc_succeeds name (suc (suc (suc (suc (suc (suc k)))))) b e p
        ≡ run realloc_succeeds name k b (line_recorded name e p m u v method version) (v + 1 + 1)
  unfolding dispatch
  run-line realloc_succeeds k e at known known' =
      let go = run-jump realloc_succeeds name b in
      go _ e (after_method0 e) p (p + 1) (dispatch-line realloc_succeeds e.parse_step e at)
      ∙ (go _ (after_method0 e) (after_method e) (p + 1) (m + 1) (method_step e known)
          ∙ (go _ (after_method e) (after_uri0 e) (m + 1) (m + 1 + 1) (uri0_step e)
              ∙ (go _ (after_uri0 e) (after_uri e) (m + 1 + 1) (u + 1) (uri_step e)
                  ∙ (go _ (after_uri e) (after_version0 e) (u + 1) (u + 1 + 1) (version0_step e)
                      ∙ go k (after_version0 e) (line_recorded name e p m u v method version)
                          (u + 1 + 1) (v + 1 + 1) (version_step e known')))))

-- `ParseHttpBuffer`, called with a whole request line of a known method and version in front,
-- records that method and version and the extents of the three fields, and goes on behind the
-- line at the headers.
pub parse_http_buffer-line :
    (realloc_succeeds : ℕ → Bool) (b : HttpBuffer) (e : HttpEnv) (m u v : ℕ)
    → RequestLine b b.process_ptr m u v
    → (method : Method) (version : Version) → e.parse_step ≡ begin
    → method_of b.base b.process_ptr (m - b.process_ptr) ≡ some method
    → version_of b.base (u + 1) (v - (u + 1)) e.headers.version ≡ some version
    → parse_http_buffer realloc_succeeds request_buffer b e
      ≡ run realloc_succeeds request_buffer
          (2 * b.fill_ptr + 2)
          b
          (line_recorded request_buffer e b.process_ptr m u v method version)
          (v + 1 + 1)
unfolding parse_http_buffer
parse_http_buffer-line realloc_succeeds b e m u v line method version at known known' =
    let e' = enter request_buffer e in
    let enough = measure_at-lt e'.parse_step b e' b.process_ptr in
    run-rounds realloc_succeeds request_buffer (2 * b.fill_ptr + 2)
      (suc (suc (suc (suc (suc (suc (2 * b.fill_ptr + 2))))))) b e' b.process_ptr enough
      (omega (arith, enough))
    ∙ run-line request_buffer b b.process_ptr m u v line method version realloc_succeeds
        (2 * b.fill_ptr + 2) e' (ap (first_step request_buffer) at) known known'
