-- ===== src/Http/Parse/Alike.antt =====
-- `ParseHttpBuffer` (src/fasterhttp.c) reads `process_ptr` only where a call begins.
use hetao.Base.{ℕ, zero, suc, ◌-◌, ◌≡◌, refl, ap, ◌∙◌, Bool, Option, none, some, arith}
use hetao.Http.Body.{
  step_body, read_size, end_size, after_size, step_chunked_size, step_chunked_data,
}
use hetao.Http.HeaderLine.{go_parsing_body, step_header_name0, step_header_name, step_header_value0}
use hetao.Http.HeaderValue.{next_header, after_header, end_header, step_header_value}
use hetao.Http.Parse.{
  Outcome, returns, undefined_behaviour, out_of_fuel, dispatch, after_round, run,
}
use hetao.Http.Scan.{Next, jump, stop, undefined, find, is_newline, space_or_newline}
use hetao.Http.StartLine.{
  begin_field, end_field, end_line, step_method0, accept_method, step_method, step_uri0, step_uri,
  step_version0, accept_version, step_request_version, step_response_version, step_statuscode0,
  step_statuscode, step_reasonphrase0, step_reasonphrase,
}
use hetao.Http.Types.{
  HttpBuffer, BufferName, HttpHeader, HttpHeaders, ParseStep, begin, request_method0,
  request_method, request_uri0, request_uri, request_version0, request_version, response_version0,
  response_version, response_statuscode0, response_statuscode, response_reasonphrase0,
  response_reasonphrase, header_name0, header_name, header_value0, header_value, body, chunked_size,
  chunked_data, done, HttpEnv, Code,
}

-- A round's result where only `process_ptr` may differ.
abbrev pub Alike : Next → Next → Type 0
Alike (jump b e p) (jump c e' p') =
    (c ≡ record b { process_ptr = c.process_ptr }) × (e' ≡ e) × (p' ≡ p)
Alike (stop b e code) (stop c e' code') = (e' ≡ e) × (code' ≡ code)
Alike undefined undefined = Unit {0}
Alike _ _ = ⊥

abbrev pub with_process : HttpBuffer → ℕ → HttpBuffer
with_process b x = record b { process_ptr = x }

module _ (b : HttpBuffer) (x : ℕ) (e : HttpEnv) (p : ℕ) where
  begin_field-Alike :
      (c : Code) (begun : ℕ → HttpEnv)
      → Alike (begin_field c begun b e p) (begin_field c begun (with_process b x) e p)
  unfolding begin_field find
  begin_field-Alike c begun = ground arith

  end_field-Alike :
      (ended ended' : ℕ → Next)
      → ((q : ℕ) → Alike (ended q) (ended' q))
      → Alike (end_field ended b e p) (end_field ended' (with_process b x) e p)
  unfolding end_field find
  end_field-Alike ended ended' h = ground (arith, h (find space_or_newline b p))

  end_line-Alike :
      (ended ended' : ℕ → Next)
      → ((q : ℕ) → Alike (ended q) (ended' q))
      → Alike (end_line ended b e p) (end_line ended' (with_process b x) e p)
  unfolding end_line find
  end_line-Alike ended ended' h = ground (arith, h (find is_newline b p))

  accept_method-Alike :
      (h : HttpHeaders) → Alike (accept_method b e p h) (accept_method (with_process b x) e p h)
  unfolding accept_method
  accept_method-Alike h = ground arith

  accept_version-Alike :
      (next : ParseStep) (len : ℕ) (h : HttpHeaders)
      → Alike (accept_version next b e p len h) (accept_version next (with_process b x) e p len h)
  unfolding accept_version
  accept_version-Alike next len h = ground arith

  go_parsing_body-Alike :
      (i : Bool) (name : BufferName)
      → Alike (go_parsing_body i name b e p) (go_parsing_body i name (with_process b x) e p)
  unfolding go_parsing_body
  go_parsing_body-Alike i name = ground arith

  after_header-Alike :
      (realloc_succeeds : ℕ → Bool) (f : HttpHeader) (h : HttpHeaders)
      → Alike
          (after_header realloc_succeeds b e p f h)
          (after_header realloc_succeeds (with_process b x) e p f h)
  unfolding after_header next_header
  after_header-Alike realloc_succeeds f h = ground arith

  after_size-Alike :
      (o : Option (ℕ × ℕ × ℕ)) → Alike (after_size b e o) (after_size (with_process b x) e o)
  unfolding after_size end_size
  after_size-Alike none = tt
  after_size-Alike (some (q, total, digits)) = ground arith

  step_body-Alike : Alike (step_body b e) (step_body (with_process b x) e)
  unfolding step_body
  step_body-Alike = ground arith

  step_chunked_data-Alike : Alike (step_chunked_data b e) (step_chunked_data (with_process b x) e)
  unfolding step_chunked_data
  step_chunked_data-Alike = ground arith

  step_header_name0-Alike :
      (name : BufferName)
      → Alike (step_header_name0 name b e p) (step_header_name0 name (with_process b x) e p)
  unfolding step_header_name0 go_parsing_body find
  step_header_name0-Alike name = ground arith

  step_header_name-Alike : Alike (step_header_name b e p) (step_header_name (with_process b x) e p)
  unfolding step_header_name find
  step_header_name-Alike = ground arith

  step_header_value-Alike :
      (realloc_succeeds : ℕ → Bool) (name : BufferName)
      → Alike
          (step_header_value realloc_succeeds name b e p)
          (step_header_value realloc_succeeds name (with_process b x) e p)
  unfolding step_header_value end_line end_header find after_header next_header
  step_header_value-Alike realloc_succeeds name = ground arith

  step_chunked_size-Alike :
      Alike (step_chunked_size b e p) (step_chunked_size (with_process b x) e p)
  unfolding step_chunked_size
  step_chunked_size-Alike =
      after_size-Alike
        (read_size b.base (b.fill_ptr - p) p e.chunked_length e.chunked_length_length)

module _ (b : HttpBuffer) (x : ℕ) (e : HttpEnv) (p : ℕ) where
  pub dispatch-Alike :
      (realloc_succeeds : ℕ → Bool) (name : BufferName) (s : ParseStep)
      → Alike
          (dispatch realloc_succeeds name s b e p)
          (dispatch realloc_succeeds name s (with_process b x) e p)
  unfolding dispatch step_method0 step_method step_uri0 step_uri step_version0 step_request_version
      step_response_version step_statuscode0 step_statuscode step_reasonphrase0 step_reasonphrase
      step_header_value0
  dispatch-Alike realloc_succeeds name begin = (refl, refl)
  dispatch-Alike realloc_succeeds name request_method0 = begin_field-Alike b x e p _ _
  dispatch-Alike realloc_succeeds name request_method =
      end_field-Alike b x e p _ _ (λ q. accept_method-Alike b x e q _)
  dispatch-Alike realloc_succeeds name request_uri0 = begin_field-Alike b x e p _ _
  dispatch-Alike realloc_succeeds name request_uri =
      end_field-Alike b x e p _ _ (λ q. (refl, refl, refl))
  dispatch-Alike realloc_succeeds name request_version0 = begin_field-Alike b x e p _ _
  dispatch-Alike realloc_succeeds name request_version =
      end_line-Alike b x e p _ _ (λ q. accept_version-Alike b x e q header_name0 _ _)
  dispatch-Alike realloc_succeeds name response_version0 = begin_field-Alike b x e p _ _
  dispatch-Alike realloc_succeeds name response_version =
      end_field-Alike b x e p _ _ (λ q. accept_version-Alike b x e q response_statuscode0 _ _)
  dispatch-Alike realloc_succeeds name response_statuscode0 = begin_field-Alike b x e p _ _
  dispatch-Alike realloc_succeeds name response_statuscode =
      end_field-Alike b x e p _ _ (λ q. (refl, refl, refl))
  dispatch-Alike realloc_succeeds name response_reasonphrase0 = begin_field-Alike b x e p _ _
  dispatch-Alike realloc_succeeds name response_reasonphrase =
      end_line-Alike b x e p _ _ (λ q. (refl, refl, refl))
  dispatch-Alike realloc_succeeds name header_name0 = step_header_name0-Alike b x e p name
  dispatch-Alike realloc_succeeds name header_name = step_header_name-Alike b x e p
  dispatch-Alike realloc_succeeds name header_value0 = begin_field-Alike b x e p _ _
  dispatch-Alike realloc_succeeds name header_value =
      step_header_value-Alike b x e p realloc_succeeds name
  dispatch-Alike realloc_succeeds name body = step_body-Alike b x e p
  dispatch-Alike realloc_succeeds name chunked_size = step_chunked_size-Alike b x e p
  dispatch-Alike realloc_succeeds name chunked_data = step_chunked_data-Alike b x e p
  dispatch-Alike realloc_succeeds name done = (refl, refl)

-- What a call makes of the message: the parser's state and the code.
pub data Verdict : Type 0 where
  decided : HttpEnv → Code → Verdict
  undecided no_rounds : Verdict

abbrev pub verdict : Outcome → Verdict
verdict (returns b e c) = decided e c
verdict undefined_behaviour = undecided
verdict out_of_fuel = no_rounds

after_round-verdict :
    (go_on go_on' : HttpBuffer → HttpEnv → ℕ → Outcome) (n n' : Next)
    → Alike n n'
    → ((b : HttpBuffer) (x : ℕ) (e : HttpEnv) (p : ℕ)
        → verdict (go_on b e p) ≡ verdict (go_on' (with_process b x) e p))
    → verdict (after_round go_on n) ≡ verdict (after_round go_on' n')
after_round-verdict go_on go_on' (jump b e p) (jump c e' p') (eb, ee, ep) same =
    same b c.process_ptr e p ∙ ap verdict (rw (ee, ep, ← eb))
after_round-verdict go_on go_on' (stop b e code) (stop c e' code') (ee, ec) same = rw (ee, ec)
after_round-verdict go_on go_on' undefined undefined a same = refl
after_round-verdict go_on go_on' (jump b e p) (stop c e' code') a same = elim a [ ]
after_round-verdict go_on go_on' (jump b e p) undefined a same = elim a [ ]
after_round-verdict go_on go_on' (stop b e code) (jump c e' p') a same = elim a [ ]
after_round-verdict go_on go_on' (stop b e code) undefined a same = elim a [ ]
after_round-verdict go_on go_on' undefined (jump c e' p') a same = elim a [ ]
after_round-verdict go_on go_on' undefined (stop c e' code') a same = elim a [ ]

-- The verdict of the loop does not depend on `process_ptr`.
pub verdict-run :
    (realloc_succeeds : ℕ → Bool) (name : BufferName) (k : ℕ) (b : HttpBuffer) (x : ℕ) (e : HttpEnv)
    (p : ℕ)
    → verdict (run realloc_succeeds name k b e p)
      ≡ verdict (run realloc_succeeds name k (with_process b x) e p)
unfolding run
verdict-run realloc_succeeds name zero b x e p = refl
verdict-run realloc_succeeds name (suc k) b x e p =
    after_round-verdict (run realloc_succeeds name k) (run realloc_succeeds name k) _ _
      (dispatch-Alike b x e p realloc_succeeds name e.parse_step)
      (λ c y e' p'. verdict-run realloc_succeeds name k c y e' p')
