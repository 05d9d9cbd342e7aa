-- ===== src/Http/Environment/Reset.antt =====
-- What `ResetHttpEnv` (src/fasterhttp.c) leaves of an environment.
use hetao.Base.{
  ℕ, ◌+◌, ◌-◌, ◌≤◌, ◌<◌, ◌≡◌, refl, ap, ◌∙◌, ◌≢◌, ◌⊎◌, inl, inr, Bool, true, false, not, ◌&&◌,
  Option, none, some, arith, ltb, leb, ◌==◌, if◌then◌else◌, gt→leb, Bool-cases, replicate,
}
use hetao.Base.Int.{pos, neg_part}
use hetao.Http.Buffer.{
  bound_int, zero_from, reforming_http_buffer, reset_http_buffer, realloc_http_buffer,
}
use hetao.Http.Environment.{
  Environment, header_arraysize_default, request_bufsize_max, response_bufsize_max,
  header_arraysize_max, reset_http_timeout, begun_parser, when_some, is_reformed, reset_buffer,
  shrink_buffer, is_large_request, is_large_response, reset_array_size, reset_headers,
  reset_http_env,
}
use hetao.Http.Types.{
  HttpBuffer, HttpHeader, zero_header, no_method, no_version, HttpHeaders, begin, HttpEnv,
}
use mathlib.Core.Path.{subst}

-- A buffer's data ends inside its memory, with room for the NUL behind it.
pub record Fits (b : HttpBuffer) : Type 0 where
  pub fill_lt : b.fill_ptr < b.buf_size
  pub process_le : b.process_ptr ≤ b.fill_ptr

-- The bytes that ResetHttpEnv keeps.
abbrev pub kept_length : Bool → HttpBuffer → ℕ
kept_length reforming b = if is_reformed reforming b then b.fill_ptr - b.process_ptr else 0

-- `c` holds the kept bytes of `b`, from its base on, and nothing else.
pub record Restarts (reforming : Bool) (b c : HttpBuffer) : Type 0 where
  pub front : c.process_ptr ≡ 0
  pub kept : c.fill_ptr ≡ kept_length reforming b
  pub moved : (i : ℕ) → i < kept_length reforming b → c.base i ≡ b.base (b.process_ptr + i)
  pub fits : c.fill_ptr < c.buf_size

-- A field that refers to no value.
abbrev pub RefersToNothing : HttpHeader → Type 0
RefersToNothing f = (f.p_buffer ≡ none) × (f.value_offset ≡ 0) × (f.value_len ≡ pos 0)

-- Nothing of a message has been read.
pub record ReadsNothing (e : HttpEnv) : Type 0 where
  pub at_begin : e.parse_step ≡ begin
  pub method_cleared : RefersToNothing e.headers.method_header
  pub uri_cleared : RefersToNothing e.headers.uri_header
  pub version_cleared : RefersToNothing e.headers.version_header
  pub statuscode_cleared : RefersToNothing e.headers.statuscode_header
  pub reasonphrase_cleared : RefersToNothing e.headers.reasonphrase_header
  pub trailer_cleared : RefersToNothing e.headers.trailer_header
  pub no_headers : e.headers.header_array_count ≡ 0
  pub cleared : e.headers.header_array ≡ replicate e.headers.header_array_size zero_header
  pub no_length : e.headers.content_length ≡ pos 0
  pub not_chunked : e.headers.transfer_encoding_chunked ≡ false
  pub no_keepalive : e.headers.connection_keepalive ≡ pos 0
  pub no_names : (e.headers.method ≡ no_method) × (e.headers.version ≡ no_version)
  pub no_body : (e.p_body_buffer ≡ none) × (e.body_base_offset ≡ 0)
  pub no_chunk :
      (e.chunked_body ≡ 0)
      × (e.chunked_body_end ≡ 0)
      × (e.chunked_length ≡ 0)
      × (e.chunked_length_length ≡ 0)

-- The size of the array of headers: a size above the maximum goes back to the default, if the
-- allocator agrees.
abbrev pub SizeReset : ℕ → ℕ → Type 0
SizeReset old new = (new ≡ old) ⊎ ((header_arraysize_max < old) × (new ≡ header_arraysize_default))

-- The compressing of the response that was on its way is marked as wished for again.
abbrev pub MarkReset : ℕ → ℕ → Type 0
MarkReset old new = ((old ≡ 2) × (new ≡ 1)) ⊎ ((old ≢ 2) × (new ≡ old))

-- The time limit counts from its beginning; a negative one is none.
abbrev pub TimeReset : Environment → Environment → Type 0
TimeReset v w =
    ((neg_part v.init_timeout ≡ 0)
      × (w.wait_limited ≡ true)
      × (w.timeout ≡ record { tv_sec = v.init_timeout; tv_usec = pos 0 }))
    ⊎ ((0 < neg_part v.init_timeout) × (w.wait_limited ≡ false) × (w.timeout ≡ v.timeout))

-- The flag that is left for the response's buffer.
abbrev pub flag_left : Environment → Bool
flag_left v = v.parser.reforming_flag && not (is_reformed v.parser.reforming_flag v.request)

pub record Resets (v w : Environment) : Type 0 where
  pub request_restarts : Restarts v.parser.reforming_flag v.request w.request
  pub response_restarts : Restarts (flag_left v) v.response w.response
  pub reads_nothing : ReadsNothing w.parser
  pub sends_nothing : (w.append ≡ none) × (w.send_proc_flag ≡ false)
  pub size_reset : SizeReset v.parser.headers.header_array_size w.parser.headers.header_array_size
  pub mark_reset : MarkReset v.enable_response_compressing w.enable_response_compressing
  pub time_reset : TimeReset v w
  pub flag_used :
      w.parser.reforming_flag ≡ (flag_left v && not (is_reformed (flag_left v) v.response))

reset_buffer-Restarts :
    (reforming : Bool) (b : HttpBuffer) → Fits b → Restarts reforming b (reset_buffer reforming b)
unfolding reforming_http_buffer reset_http_buffer
reset_buffer-Restarts reforming b f = record {
  front = ground arith;
  kept = ground arith;
  moved = λ i l. ground arith;
  fits = ground (arith, f.fill_lt);
}

shrink_buffer-Restarts :
    (malloc_succeeds : ℕ → Bool) (reforming too_large : Bool) (size : ℕ) (b c : HttpBuffer)
    → size < bound_int
    → (too_large ≡ true → c.fill_ptr < size)
    → Restarts reforming b c
    → (d : HttpBuffer) × (shrink_buffer malloc_succeeds too_large size c ≡ some d)
      × Restarts reforming b d
unfolding realloc_http_buffer
shrink_buffer-Restarts malloc_succeeds reforming false size b c h i r = (c, refl, r)
shrink_buffer-Restarts malloc_succeeds reforming true size b c h i r =
    let d : HttpBuffer = record c {
      buf_size = size;
      base = zero_from c.base c.fill_ptr;
      base_null = false;
    } in
    let small : leb bound_int size ≡ false = gt→leb _ _ h in
    let fits : ltb size c.fill_ptr ≡ false = ground (arith, i refl) in
    let held : ltb c.buf_size c.fill_ptr ≡ false = ground (arith, r.fits) in
    elim (Bool-cases c.ref_flag) [
      | inl e ↦ (c, rw e, r)
      | inr e ↦ elim (Bool-cases (malloc_succeeds size)) [
        | inl m ↦ (
          d,
          rw (e, small, m, fits, held),
          record {
            front = r.front;
            kept = r.kept;
            moved = λ j l. ground (arith, r.moved j l, r.kept);
            fits = i refl;
          },
        )
        | inr m ↦ (c, rw (e, small, m), r)
      ]
    ]

when_some-eq {ℓ κ} :
    {A : Type ℓ} {B : Type κ} {o : Option A} {a : A} (f : A → Option B)
    → o ≡ some a
    → when_some o f ≡ f a
when_some-eq f e = ap (λ o. when_some o f) e

begun_parser-ReadsNothing :
    (realloc_succeeds : ℕ → Bool) (reforming : Bool) (h : HttpHeaders)
    → ReadsNothing (begun_parser reforming (reset_headers realloc_succeeds h))
begun_parser-ReadsNothing realloc_succeeds reforming h = record {
  at_begin = refl;
  method_cleared = (refl, refl, refl);
  uri_cleared = (refl, refl, refl);
  version_cleared = (refl, refl, refl);
  statuscode_cleared = (refl, refl, refl);
  reasonphrase_cleared = (refl, refl, refl);
  trailer_cleared = (refl, refl, refl);
  no_headers = refl;
  cleared = refl;
  no_length = refl;
  not_chunked = refl;
  no_keepalive = refl;
  no_names = (refl, refl);
  no_body = (refl, refl);
  no_chunk = (refl, refl, refl, refl);
}

reset_array_size-SizeReset :
    (realloc_succeeds : ℕ → Bool) (size : ℕ)
    → SizeReset size (reset_array_size realloc_succeeds size)
reset_array_size-SizeReset realloc_succeeds size =
    elim (Bool-cases (ltb header_arraysize_max size)) [
      | inl e ↦ elim (Bool-cases (realloc_succeeds header_arraysize_default)) [
        | inl f ↦ rw (e, f) (inr (ground arith, refl))
        | inr f ↦ rw (e, f) (inl refl)
      ]
      | inr e ↦ rw e (inl refl)
    ]

mark-MarkReset : (mark : ℕ) → MarkReset mark (if mark == 2 then 1 else mark)
mark-MarkReset mark = elim (Bool-cases (mark == 2)) [
  | inl e ↦ rw e (inl (ground arith, refl))
  | inr e ↦ rw e (inr (ground arith, refl))
]

reset_http_timeout-TimeReset : (v : Environment) → TimeReset v (reset_http_timeout v)
unfolding reset_http_timeout
reset_http_timeout-TimeReset v = elim (Bool-cases (leb (neg_part v.init_timeout) 0)) [
  | inl e ↦ rw e (inl (ground arith, refl, refl))
  | inr e ↦ rw e (inr (ground arith, refl, refl))
]

reset_http_timeout-keeps :
    (v : Environment)
    → ((reset_http_timeout v).parser ≡ v.parser)
      × ((reset_http_timeout v).enable_response_compressing ≡ v.enable_response_compressing)
unfolding reset_http_timeout
reset_http_timeout-keeps v = elim (Bool-cases (leb (neg_part v.init_timeout) 0)) [
  | inl e ↦ rw e (refl, refl)
  | inr e ↦ rw e (refl, refl)
]

-- ResetHttpEnv, for any environment whose buffers are in order, and whatever the allocator answers,
-- if what is left in the response's buffer is less than 100 kB: the data behind the message just
-- read (if `reforming_flag` is set and the buffer owns its memory) is moved to the front of the
-- request's buffer and is all that is in it, each buffer has room for a NUL behind its data, and
-- neither a message that is being read nor one that is being sent leaves anything behind: no field
-- of a start line, trailer, header, body or chunk, no appended buffer, and no mark that the response
-- is compressed. An array of headers above the maximum may go back to its default size, and the
-- time limit counts from its beginning.
pub reset_http_env-Resets :
    (malloc_succeeds realloc_succeeds : ℕ → Bool) (v : Environment)
    → Fits v.request
    → Fits v.response
    → kept_length (flag_left v) v.response < response_bufsize_max
    → (w : Environment) × (reset_http_env malloc_succeeds realloc_succeeds v ≡ some w) × Resets v w
unfolding reset_http_env
reset_http_env-Resets malloc_succeeds realloc_succeeds v f g h =
    let r = v.parser.reforming_flag in
    let u = reset_http_timeout v in
    let kept = reset_http_timeout-keeps v in
    let restarts = reset_buffer-Restarts r v.request f in
    let restarts' = reset_buffer-Restarts (flag_left v) v.response g in
    let (b, eb, rb) =
      shrink_buffer-Restarts malloc_succeeds r (is_large_request (reset_buffer r v.request))
        request_bufsize_max v.request (reset_buffer r v.request) (omega arith)
        (λ e. ground (arith, restarts.front)) restarts in
    let (c, ec, rc) =
      shrink_buffer-Restarts malloc_succeeds (flag_left v)
        (is_large_response (reset_buffer (flag_left v) v.response)) response_bufsize_max v.response
        (reset_buffer (flag_left v) v.response) (omega arith) (λ e. omega (arith, restarts'.kept))
        restarts' in
    (
      _,
      when_some-eq _ eb ∙ when_some-eq _ ec,
      record {
        request_restarts = rb;
        response_restarts = rc;
        reads_nothing =
            begun_parser-ReadsNothing realloc_succeeds _ (reset_http_timeout v).parser.headers;
        sends_nothing = (refl, refl);
        size_reset =
            subst
              (λ x.
                SizeReset x.headers.header_array_size
                  (reset_array_size realloc_succeeds u.parser.headers.header_array_size))
              kept.0
              (reset_array_size-SizeReset realloc_succeeds u.parser.headers.header_array_size);
        mark_reset =
            subst
              (λ x.
                MarkReset x
                  (if u.enable_response_compressing == 2 then 1 else u.enable_response_compressing))
              kept.1 (mark-MarkReset u.enable_response_compressing);
        time_reset = reset_http_timeout-TimeReset v;
        flag_used = refl;
      },
    )
