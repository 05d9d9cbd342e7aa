-- ===== src/Http/Parse/StatusLine.antt =====
-- A status line in `ParseHttpBuffer` (src/fasterhttp.c): what the parser records of it.
use hetao.Base.{
  ℕ, suc, ◌+◌, ◌-◌, ◌*◌, ◌≤◌, ◌<◌, ◌≡◌, refl, ap, ◌∙◌, ◌≢◌, inl, inr, Bool, some, arith, ◌==◌,
  Bool-cases,
}
use hetao.Http.Parse.{dispatch, run, first_step, enter, parse_http_buffer}
use hetao.Http.Parse.RequestLine.{field_at, line_end-at, run-jump}
use hetao.Http.Parse.Total.{run-rounds, measure_at-lt}
use hetao.Http.Scan.{jump, newline, carriage_return}
use hetao.Http.StartLine.{
  begin_value, end_value, version_of, with_headers, step_version0, accept_version,
  step_response_version, step_statuscode0, step_statuscode, step_reasonphrase0, step_reasonphrase,
}
use hetao.Http.StartLine.Fields.{Word, begin_field-at, end_field-at, end_line-at}
use hetao.Http.Types.{
  HttpBuffer, BufferName, response_buffer, Version, HttpHeaders, ParseStep, begin,
  response_version0, response_version, response_statuscode0, response_statuscode,
  response_reasonphrase0, response_reasonphrase, header_name0, HttpEnv,
}

-- At `p` stands a version up to `m`, a status code up to `u` and a phrase up to `v`, parted by one
-- space each and ended by a carriage return and a newline, whole in the data. The phrase can have
-- spaces inside.
pub record StatusLine (b : HttpBuffer) (p m u v : ℕ) : Type 0 where
  pub version_word : Word b.base p m
  pub version_some : p < m
  pub version_end : b.base m ≡ b' '
  pub code_word : Word b.base (m + 1) u
  pub code_some : m + 1 < u
  pub code_end : b.base u ≡ b' '
  pub phrase_begins : Word b.base (u + 1) (u + 2)
  pub phrase_line : (i : ℕ) → u + 1 ≤ i → i < v → b.base i ≢ newline
  pub phrase_some : u + 1 < v
  pub phrase_end : b.base v ≡ carriage_return
  pub line_ends : b.base (v + 1) ≡ newline
  pub whole : v + 1 < b.fill_ptr

-- The fields recorded.
abbrev pub status_recorded : BufferName → HttpEnv → ℕ → ℕ → ℕ → ℕ → Version → HttpEnv
status_recorded name e p m u v version = record e {
  parse_step = header_name0;
  headers = record e.headers {
    version_header = field_at name p (m - p) e.headers.version_header;
    version = version;
    statuscode_header = field_at name (m + 1) (u - (m + 1)) e.headers.statuscode_header;
    reasonphrase_header = field_at name (u + 1) (v - (u + 1)) e.headers.reasonphrase_header;
  };
}

module _ (name : BufferName) (b : HttpBuffer) (p m u v : ℕ) (line : StatusLine b p m u v)
    (version : Version) where
  -- The environment after each step.
  abbrev after_version0 : HttpEnv → HttpEnv
  after_version0 e =
      with_headers e response_version
        (record e.headers { version_header = begin_value name p e.headers.version_header })

  abbrev after_version : HttpEnv → HttpEnv
  after_version e = with_headers e response_statuscode0 (record e.headers {
    version_header = field_at name p (m - p) e.headers.version_header;
    version = version;
  })

  abbrev after_code0 : HttpEnv → HttpEnv
  after_code0 e =
      with_headers (after_version e) response_statuscode (record (after_version e).headers {
        statuscode_header = begin_value name (m + 1) e.headers.statuscode_header;
      })

  abbrev after_code : HttpEnv → HttpEnv
  after_code e =
      with_headers (after_version e) response_reasonphrase0 (record (after_version e).headers {
        statuscode_header = field_at name (m + 1) (u - (m + 1)) e.headers.statuscode_header;
      })

  abbrev after_phrase0 : HttpEnv → HttpEnv
  after_phrase0 e =
      with_headers (after_code e) response_reasonphrase (record (after_code e).headers {
        reasonphrase_header = begin_value name (u + 1) e.headers.reasonphrase_header;
      })

  version0_step :
      (e : HttpEnv) → step_version0 response_version name b e p ≡ jump b (after_version0 e) (p + 1)
  unfolding step_version0
  version0_step e =
      begin_field-at _ _ b e p m line.version_word line.version_some
        (omega (arith, line.whole, line.phrase_some, line.code_some, line.version_some))

  accept_version-some :
      (e : HttpEnv) (q len : ℕ) (h : HttpHeaders)
      → version_of b.base h.version_header.value_offset len h.version ≡ some version
      → accept_version response_statuscode0 b e q len h
        ≡ jump b (with_headers e response_statuscode0 (record h { version = version })) (q + 1)
  unfolding accept_version
  accept_version-some e q len h k = rw k refl

  version_step :
      (e : HttpEnv)
      → version_of b.base p (m - p) e.headers.version ≡ some version
      → step_response_version b (after_version0 e) (p + 1) ≡ jump b (after_version e) (m + 1)
  unfolding step_response_version
  version_step e k =
      end_field-at _ b (after_version0 e) (p + 1) m (λ i g g'. line.version_word i (omega arith) g')
        (omega (arith, line.version_some))
        (omega (arith, line.whole, line.phrase_some, line.code_some)) line.version_end
      ∙ accept_version-some (after_version0 e) m (m - p) _ k

  code0_step :
      (e : HttpEnv)
      → step_statuscode0 name b (after_version e) (m + 1) ≡ jump b (after_code0 e) (m + 1 + 1)
  unfolding step_statuscode0
  code0_step e =
      begin_field-at _ _ b (after_version e) (m + 1) u line.code_word line.code_some
        (omega (arith, line.whole, line.phrase_some, line.code_some))

  code_step :
      (e : HttpEnv) → step_statuscode b (after_code0 e) (m + 1 + 1) ≡ jump b (after_code e) (u + 1)
  unfolding step_statuscode
  code_step e =
      end_field-at _ b (after_code0 e) (m + 1 + 1) u (λ i g g'. line.code_word i (omega arith) g')
        (omega (arith, line.code_some)) (omega (arith, line.whole, line.phrase_some)) line.code_end

  phrase0_step :
      (e : HttpEnv)
      → step_reasonphrase0 name b (after_code e) (u + 1) ≡ jump b (after_phrase0 e) (u + 1 + 1)
  unfolding step_reasonphrase0
  phrase0_step e =
      begin_field-at _ _ b (after_code e) (u + 1) (u + 2) line.phrase_begins (omega arith)
        (omega (arith, line.whole, line.phrase_some))

  no_newline : (i : ℕ) → u + 1 + 1 ≤ i → i < v + 1 → b.base i ≢ newline
  no_newline i g g' = elim (Bool-cases (i == v)) [
    | inl e ↦
        λ h. let same : i ≡ v = ground arith in ground (arith, ap b.base same, line.phrase_end)
    | inr e ↦ line.phrase_line i (omega arith) (ground arith)
  ]

  phrase_step :
      (e : HttpEnv)
      → step_reasonphrase b (after_phrase0 e) (u + 1 + 1)
        ≡ jump b (status_recorded name e p m u v version) (v + 1 + 1)
  unfolding step_reasonphrase
  phrase_step e =
      end_line-at _ b (after_phrase0 e) (u + 1 + 1) (v + 1) no_newline
        (omega (arith, line.phrase_some)) line.whole line.line_ends
      ∙ ap
          (λ x.
            jump b
              (with_headers (after_phrase0 e) header_name0 (record (after_phrase0 e).headers {
                reasonphrase_header = end_value x (after_phrase0 e).headers.reasonphrase_header;
              }))
              (v + 1 + 1))
          (line_end-at b.base v line.phrase_end)

  dispatch-status :
      (realloc_succeeds : ℕ → Bool) (s : ParseStep) (e : HttpEnv)
      → s ≡ response_version0
      → dispatch realloc_succeeds name s b e p ≡ jump b (after_version0 e) (p + 1)
  unfolding dispatch
  dispatch-status realloc_succeeds s e h = rw h (version0_step e)

  pub run-status :
      (realloc_succeeds : ℕ → Bool) (k : ℕ) (e : HttpEnv)
      → e.parse_step ≡ response_version0
      → version_of b.base p (m - p) e.headers.version ≡ some version
      → run realloc_succeeds name (suc (suc (suc (suc (suc (suc k)))))) b e p
        ≡ run realloc_succeeds name k b (status_recorded name e p m u v version) (v + 1 + 1)
  unfolding dispatch
  run-status realloc_succeeds k e at known =
      let go = run-jump realloc_succeeds name b in
      go _ e (after_version0 e) p (p + 1) (dispatch-status realloc_succeeds e.parse_step e at)
      ∙ (go _ (after_version0 e) (after_version e) (p + 1) (m + 1) (version_step e known)
          ∙ (go _ (after_version e) (after_code0 e) (m + 1) (m + 1 + 1) (code0_step e)
              ∙ (go _ (after_code0 e) (after_code e) (m + 1 + 1) (u + 1) (code_step e)
                  ∙ (go _ (after_code e) (after_phrase0 e) (u + 1) (u + 1 + 1) (phrase0_step e)
                      ∙ go k (after_phrase0 e) (status_recorded name e p m u v version) (u + 1 + 1)
                          (v + 1 + 1) (phrase_step e)))))

-- `ParseHttpBuffer`, called at its first step on the response buffer with a whole status line of a
-- known version in front, records the version and the extents of the three fields, and goes on
-- behind the line at the headers.
pub parse_http_buffer-status :
    (realloc_succeeds : ℕ → Bool) (b : HttpBuffer) (e : HttpEnv) (m u v : ℕ)
    → StatusLine b b.process_ptr m u v
    → (version : Version) → e.parse_step ≡ begin
    → version_of b.base b.process_ptr (m - b.process_ptr) e.headers.version ≡ some version
    → parse_http_buffer realloc_succeeds response_buffer b e
      ≡ run realloc_succeeds response_buffer
          (2 * b.fill_ptr + 2)
          b
          (status_recorded response_buffer e b.process_ptr m u v version)
          (v + 1 + 1)
unfolding parse_http_buffer
parse_http_buffer-status realloc_succeeds b e m u v line version at known =
    let e' = enter response_buffer e in
    let enough = measure_at-lt e'.parse_step b e' b.process_ptr in
    run-rounds realloc_succeeds response_buffer (2 * b.fill_ptr + 2)
      (suc (suc (suc (suc (suc (suc (2 * b.fill_ptr + 2))))))) b e' b.process_ptr enough
      (omega (arith, enough))
    ∙ run-status response_buffer b b.process_ptr m u v line version realloc_succeeds
        (2 * b.fill_ptr + 2) e' (ap (first_step response_buffer) at) known
