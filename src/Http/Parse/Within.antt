-- ===== src/Http/Parse/Within.antt =====
-- `ParseHttpBuffer` (src/fasterhttp.c) stays inside the data that has been received.
use hetao.Base.{
  ℕ, zero, suc, ◌+◌, ◌-◌, ◌*◌, ◌≤◌, ◌<◌, ◌≡◌, refl, ◌∙◌, Bool, Option, none, some, arith,
}
use hetao.Http.Body.{
  step_body, read_size, end_size, after_size, step_chunked_size, step_chunked_data,
}
use hetao.Http.HeaderLine.{go_parsing_body, step_header_name0, step_header_name, step_header_value0}
use hetao.Http.HeaderValue.{next_header, after_header, end_header, step_header_value}
use hetao.Http.Parse.{
  Outcome, returns, undefined_behaviour, out_of_fuel, dispatch, after_round, run, enter,
  parse_http_buffer,
}
use hetao.Http.Parse.Rounds.{read_size_range}
use hetao.Http.Scan.{
  Next, jump, stop, undefined, find, is_newline, not_space, space_or_newline, colon_or_newline,
  name_end,
}
use hetao.Http.Scan.Walks.{find_range}
use hetao.Http.StartLine.{
  begin_field, end_field, end_line, step_method0, accept_method, step_method, step_uri0, step_uri,
  step_version0, accept_version, step_request_version, step_response_version, step_statuscode0,
  step_statuscode, step_reasonphrase0, step_reasonphrase,
}
use hetao.Http.Types.{
  HttpBuffer, BufferName, HttpHeader, HttpHeaders, ParseStep, begin, request_method0,
  request_method, request_uri0, request_uri, request_version0, request_version, response_version0,
  response_version, response_statuscode0, response_statuscode, response_reasonphrase0,
  response_reasonphrase, header_name0, header_name, header_value0, header_value, body, chunked_size,
  chunked_data, done, HttpEnv, Code,
}

-- The memory's size, its owner and the end of the data are as before.
pub record SameShape (b c : HttpBuffer) : Type 0 where
  pub same_size : c.buf_size ≡ b.buf_size
  pub same_fill : c.fill_ptr ≡ b.fill_ptr
  pub same_owner : c.ref_flag ≡ b.ref_flag
  pub same_base : c.base_null ≡ b.base_null

abbrev pub Inside : HttpBuffer → HttpBuffer → ℕ → Type 0
Inside b c p = SameShape b c × (p ≤ b.fill_ptr) × (c.process_ptr ≤ b.fill_ptr)

-- A round leaves `p` and `process_ptr` at the end of the data at most.
abbrev pub Stays : HttpBuffer → Next → Type 0
Stays b (jump c e p) = Inside b c p
Stays b (stop c e code) = Inside b c 0
Stays b undefined = Unit {0}

abbrev same_shape : (b : HttpBuffer) → SameShape b b
same_shape b = record { same_size = refl; same_fill = refl; same_owner = refl; same_base = refl }

module _ (b : HttpBuffer) (e : HttpEnv) (p : ℕ) (l : p ≤ b.fill_ptr)
    (m : b.process_ptr ≤ b.fill_ptr) where
  begin_field-Stays : (c : Code) (begun : ℕ → HttpEnv) → Stays b (begin_field c begun b e p)
  unfolding begin_field
  begin_field-Stays c begun = ground (arith, find_range not_space b p)

  end_field-Stays :
      (ended : ℕ → Next)
      → ((q : ℕ) → q < b.fill_ptr → Stays b (ended q))
      → Stays b (end_field ended b e p)
  unfolding end_field
  end_field-Stays ended h =
      ground (arith, find_range space_or_newline b p, h (find space_or_newline b p))

  end_line-Stays :
      (ended : ℕ → Next)
      → ((q : ℕ) → q < b.fill_ptr → Stays b (ended q))
      → Stays b (end_line ended b e p)
  unfolding end_line
  end_line-Stays ended h = ground (arith, find_range is_newline b p, h (find is_newline b p))

module _ (b : HttpBuffer) (e : HttpEnv) (m : b.process_ptr ≤ b.fill_ptr) where
  accept_method-Stays : (p : ℕ) (h : HttpHeaders) → p < b.fill_ptr → Stays b (accept_method b e p h)
  unfolding accept_method
  accept_method-Stays p h l = ground arith

  accept_version-Stays :
      (p : ℕ) (next : ParseStep) (len : ℕ) (h : HttpHeaders)
      → p < b.fill_ptr
      → Stays b (accept_version next b e p len h)
  unfolding accept_version
  accept_version-Stays p next len h l = ground arith

  go_parsing_body-Stays :
      (i : Bool) (name : BufferName) (p : ℕ)
      → p ≤ b.fill_ptr
      → Stays b (go_parsing_body i name b e p)
  unfolding go_parsing_body
  go_parsing_body-Stays i name p l = ground arith

  after_header-Stays :
      (realloc_succeeds : ℕ → Bool) (p : ℕ) (f : HttpHeader) (h : HttpHeaders)
      → p ≤ b.fill_ptr
      → Stays b (after_header realloc_succeeds b e p f h)
  unfolding after_header next_header
  after_header-Stays realloc_succeeds p f h l = ground arith

  end_size-Stays : (p : ℕ) → p ≤ b.fill_ptr → Stays b (end_size b e p)
  unfolding end_size
  end_size-Stays p l = ground arith

  step_body-Stays : Stays b (step_body b e)
  unfolding step_body
  step_body-Stays = ground arith

  step_chunked_data-Stays : Stays b (step_chunked_data b e)
  unfolding step_chunked_data
  step_chunked_data-Stays = ground arith

  after_size-Stays :
      (o : Option (ℕ × ℕ × ℕ))
      → ((q total digits : ℕ) → o ≡ some (q, total, digits) → q ≤ b.fill_ptr)
      → Stays b (after_size b e o)
  unfolding after_size end_size
  after_size-Stays none h = tt
  after_size-Stays (some (q, total, digits)) h = ground (arith, h q total digits refl)

module _ (b : HttpBuffer) (e : HttpEnv) (p : ℕ) (l : p ≤ b.fill_ptr)
    (m : b.process_ptr ≤ b.fill_ptr) where
  step_header_name0-Stays : (name : BufferName) → Stays b (step_header_name0 name b e p)
  unfolding step_header_name0 go_parsing_body
  step_header_name0-Stays name = ground (arith, find_range not_space b p)

  step_header_name-Stays : Stays b (step_header_name b e p)
  unfolding step_header_name
  step_header_name-Stays =
      ground (arith, find_range name_end b p, find_range colon_or_newline b (find name_end b p))

  step_header_value-Stays :
      (realloc_succeeds : ℕ → Bool) (name : BufferName)
      → Stays b (step_header_value realloc_succeeds name b e p)
  unfolding step_header_value end_header
  step_header_value-Stays realloc_succeeds name =
      end_line-Stays b e p l m (end_header realloc_succeeds name b e)
        (λ q k. after_header-Stays b e m realloc_succeeds (q + 1) _ _ (omega arith))

  step_chunked_size-Stays : Stays b (step_chunked_size b e p)
  unfolding step_chunked_size
  step_chunked_size-Stays =
      after_size-Stays b e m
        (read_size b.base (b.fill_ptr - p) p e.chunked_length e.chunked_length_length)
        (λ q total digits u.
          let r =
            read_size_range b.base (b.fill_ptr - p) p e.chunked_length e.chunked_length_length u in
          omega (arith, r.1))

  pub dispatch-Stays :
      (realloc_succeeds : ℕ → Bool) (name : BufferName) (s : ParseStep)
      → Stays b (dispatch realloc_succeeds name s b e p)
  unfolding dispatch step_method0 step_method step_uri0 step_uri step_version0 step_request_version
      step_response_version step_statuscode0 step_statuscode step_reasonphrase0 step_reasonphrase
      step_header_value0
  dispatch-Stays realloc_succeeds name begin = ground arith
  dispatch-Stays realloc_succeeds name request_method0 = begin_field-Stays b e p l m _ _
  dispatch-Stays realloc_succeeds name request_method =
      end_field-Stays b e p l m _ (λ q k. accept_method-Stays b e m q _ k)
  dispatch-Stays realloc_succeeds name request_uri0 = begin_field-Stays b e p l m _ _
  dispatch-Stays realloc_succeeds name request_uri =
      end_field-Stays b e p l m _ (λ q k. ground arith)
  dispatch-Stays realloc_succeeds name request_version0 = begin_field-Stays b e p l m _ _
  dispatch-Stays realloc_succeeds name request_version =
      end_line-Stays b e p l m _ (λ q k. accept_version-Stays b e m q header_name0 _ _ k)
  dispatch-Stays realloc_succeeds name response_version0 = begin_field-Stays b e p l m _ _
  dispatch-Stays realloc_succeeds name response_version =
      end_field-Stays b e p l m _ (λ q k. accept_version-Stays b e m q response_statuscode0 _ _ k)
  dispatch-Stays realloc_succeeds name response_statuscode0 = begin_field-Stays b e p l m _ _
  dispatch-Stays realloc_succeeds name response_statuscode =
      end_field-Stays b e p l m _ (λ q k. ground arith)
  dispatch-Stays realloc_succeeds name response_reasonphrase0 = begin_field-Stays b e p l m _ _
  dispatch-Stays realloc_succeeds name response_reasonphrase =
      end_line-Stays b e p l m _ (λ q k. ground arith)
  dispatch-Stays realloc_succeeds name header_name0 = step_header_name0-Stays name
  dispatch-Stays realloc_succeeds name header_name = step_header_name-Stays
  dispatch-Stays realloc_succeeds name header_value0 = begin_field-Stays b e p l m _ _
  dispatch-Stays realloc_succeeds name header_value = step_header_value-Stays realloc_succeeds name
  dispatch-Stays realloc_succeeds name body = step_body-Stays b e m
  dispatch-Stays realloc_succeeds name chunked_size = step_chunked_size-Stays
  dispatch-Stays realloc_succeeds name chunked_data = step_chunked_data-Stays b e m
  dispatch-Stays realloc_succeeds name done = ground arith

-- How a call ends: it does, with the same memory and data, and `process_ptr` inside the data.
abbrev pub StaysWithin : HttpBuffer → Outcome → Type 0
StaysWithin b (returns c e code) = SameShape b c × (c.process_ptr ≤ c.fill_ptr)
StaysWithin b undefined_behaviour = Unit {0}
StaysWithin b out_of_fuel = Unit {0}

SameShape-trans : {a b c : HttpBuffer} → SameShape a b → SameShape b c → SameShape a c
SameShape-trans s t = record {
  same_size = t.same_size ∙ s.same_size;
  same_fill = t.same_fill ∙ s.same_fill;
  same_owner = t.same_owner ∙ s.same_owner;
  same_base = t.same_base ∙ s.same_base;
}

StaysWithin-trans :
    (a b : HttpBuffer) (o : Outcome) → SameShape a b → StaysWithin b o → StaysWithin a o
StaysWithin-trans a b (returns c e code) s (t, l) = (SameShape-trans s t, l)
StaysWithin-trans a b undefined_behaviour s w = w
StaysWithin-trans a b out_of_fuel s w = w

after_round-StaysWithin :
    (b : HttpBuffer) (go_on : HttpBuffer → HttpEnv → ℕ → Outcome) (n : Next)
    → Stays b n
    → ((c : HttpBuffer) (e : HttpEnv) (p : ℕ)
        → p ≤ c.fill_ptr
        → c.process_ptr ≤ c.fill_ptr
        → StaysWithin c (go_on c e p))
    → StaysWithin b (after_round go_on n)
after_round-StaysWithin b go_on (jump c e p) (s, l, m) rest =
    StaysWithin-trans b c (go_on c e p) s
      (rest c e p (omega (arith, s.same_fill)) (omega (arith, s.same_fill)))
after_round-StaysWithin b go_on (stop c e code) (s, l, m) rest = (s, omega (arith, s.same_fill))
after_round-StaysWithin b go_on undefined h rest = h

run-StaysWithin :
    (realloc_succeeds : ℕ → Bool) (name : BufferName) (k : ℕ) (b : HttpBuffer) (e : HttpEnv) (p : ℕ)
    → p ≤ b.fill_ptr
    → b.process_ptr ≤ b.fill_ptr
    → StaysWithin b (run realloc_succeeds name k b e p)
unfolding run
run-StaysWithin realloc_succeeds name zero b e p l m = tt
run-StaysWithin realloc_succeeds name (suc k) b e p l m =
    after_round-StaysWithin b (run realloc_succeeds name k) _
      (dispatch-Stays b e p l m realloc_succeeds name e.parse_step)
      (λ c e' p' l' m'. run-StaysWithin realloc_succeeds name k c e' p' l' m')

-- `ParseHttpBuffer` on a buffer whose `process_ptr` is not behind its data, in any state and on any
-- data: where it returns, with whatever code, the buffer has the same memory size, owner and end of
-- the data, and `process_ptr` is not behind the data.
pub parse_http_buffer-StaysWithin :
    (realloc_succeeds : ℕ → Bool) (name : BufferName) (b : HttpBuffer) (e : HttpEnv)
    → b.process_ptr ≤ b.fill_ptr
    → StaysWithin b (parse_http_buffer realloc_succeeds name b e)
unfolding parse_http_buffer
parse_http_buffer-StaysWithin realloc_succeeds name b e m =
    run-StaysWithin realloc_succeeds name (2 * b.fill_ptr + 2) b (enter name e) b.process_ptr m m
