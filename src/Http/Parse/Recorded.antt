-- ===== src/Http/Parse/Recorded.antt =====
-- The slices that `ParseHttpBuffer` (src/fasterhttp.c) records: where they are, step by step.
pub mod Fields
pub mod Headers
pub mod Bodies
pub mod Rounds
pub mod Run
use hetao.Base.{ℕ, ◌+◌, ◌≤◌, ◌<◌, List, arith, get_or}
use hetao.Base.Int.{pos_part}
use hetao.Http.HeaderLine.{p_header}
use hetao.Http.Scan.{Next, jump, stop, undefined}
use hetao.Http.Types.{
  HttpBuffer, HttpHeader, zero_header, HttpHeaders, ParseStep, request_method, request_uri,
  request_version, response_version, response_statuscode, response_reasonphrase, header_name,
  header_value0, header_value, done, HttpEnv, Code, need_more_http_buffer, error_alloc,
}

-- The value is inside the data, which ends at `fill`. A value of negative length is empty.
abbrev pub ValueIn : ℕ → HttpHeader → Type 0
ValueIn fill f = f.value_offset + pos_part f.value_len ≤ fill

abbrev pub NameIn : ℕ → HttpHeader → Type 0
NameIn fill f = f.name_offset + f.name_len ≤ fill

-- In the step that reads a field the field has begun, at `p` or before, and its length is not
-- written yet; in all other steps it is inside the data.
abbrev pub MethodIn : ParseStep → ℕ → ℕ → HttpHeader → Type 0
MethodIn request_method fill p f = f.value_offset ≤ p
MethodIn _ fill p f = ValueIn fill f

abbrev pub UriIn : ParseStep → ℕ → ℕ → HttpHeader → Type 0
UriIn request_uri fill p f = f.value_offset ≤ p
UriIn _ fill p f = ValueIn fill f

abbrev pub VersionIn : ParseStep → ℕ → ℕ → HttpHeader → Type 0
VersionIn request_version fill p f = f.value_offset ≤ p
VersionIn response_version fill p f = f.value_offset ≤ p
VersionIn _ fill p f = ValueIn fill f

abbrev pub StatuscodeIn : ParseStep → ℕ → ℕ → HttpHeader → Type 0
StatuscodeIn response_statuscode fill p f = f.value_offset ≤ p
StatuscodeIn _ fill p f = ValueIn fill f

abbrev pub ReasonphraseIn : ParseStep → ℕ → ℕ → HttpHeader → Type 0
ReasonphraseIn response_reasonphrase fill p f = f.value_offset ≤ p
ReasonphraseIn _ fill p f = ValueIn fill f

-- The header being read, which is not counted yet.
abbrev pub HeaderIn : ParseStep → ℕ → ℕ → HttpHeader → Type 0
HeaderIn header_name fill p f = f.name_offset ≤ p
HeaderIn header_value0 fill p f = NameIn fill f
HeaderIn header_value fill p f = NameIn fill f × (f.value_offset ≤ p)
HeaderIn _ fill p f = Unit {0}

abbrev pub CountedIn : ℕ → List HttpHeader → ℕ → Type 0
CountedIn fill a count =
    (i : ℕ)
    → i < count
    → NameIn fill (get_or a i zero_header) × ValueIn fill (get_or a i zero_header)

abbrev pub Recorded : ParseStep → ℕ → ℕ → HttpHeaders → Type 0
Recorded s fill p h =
    MethodIn s fill p h.method_header
    × UriIn s fill p h.uri_header
    × VersionIn s fill p h.version_header
    × StatuscodeIn s fill p h.statuscode_header
    × ReasonphraseIn s fill p h.reasonphrase_header
    × HeaderIn s fill p (p_header h)
    × CountedIn fill h.header_array h.header_array_count

-- Where the parser goes on after a call: from `process_ptr`, if it asks for more data.
abbrev pub goes_on_at : Code → ℕ → ℕ → ℕ
goes_on_at need_more_http_buffer fill p = p
goes_on_at _ fill p = fill

-- Where there is no memory for more headers, the last one is counted and no header is being read.
abbrev pub being_read : Code → ParseStep → ParseStep
being_read error_alloc s = done
being_read _ s = s

-- What a call leaves recorded.
abbrev pub LeavesRecorded : ℕ → HttpBuffer → HttpEnv → Code → Type 0
LeavesRecorded fill b e c =
    Recorded (being_read c e.parse_step) fill (goes_on_at c fill b.process_ptr) e.headers

-- What a round leaves recorded.
abbrev pub Records : ℕ → Next → Type 0
Records fill (jump b e p) = Recorded e.parse_step fill p e.headers
Records fill (stop b e c) = LeavesRecorded fill b e c
Records fill undefined = Unit {0}

module _ (fill p q : ℕ) (l : p ≤ q) where
  MethodIn-mono : (s : ParseStep) (f : HttpHeader) → MethodIn s fill p f → MethodIn s fill q f
  MethodIn-mono request_method f h = omega arith
  MethodIn-mono _ f h = h

  UriIn-mono : (s : ParseStep) (f : HttpHeader) → UriIn s fill p f → UriIn s fill q f
  UriIn-mono request_uri f h = omega arith
  UriIn-mono _ f h = h

  VersionIn-mono : (s : ParseStep) (f : HttpHeader) → VersionIn s fill p f → VersionIn s fill q f
  VersionIn-mono request_version f h = omega arith
  VersionIn-mono response_version f h = omega arith
  VersionIn-mono _ f h = h

  StatuscodeIn-mono :
      (s : ParseStep) (f : HttpHeader) → StatuscodeIn s fill p f → StatuscodeIn s fill q f
  StatuscodeIn-mono response_statuscode f h = omega arith
  StatuscodeIn-mono _ f h = h

  ReasonphraseIn-mono :
      (s : ParseStep) (f : HttpHeader) → ReasonphraseIn s fill p f → ReasonphraseIn s fill q f
  ReasonphraseIn-mono response_reasonphrase f h = omega arith
  ReasonphraseIn-mono _ f h = h

  HeaderIn-mono : (s : ParseStep) (f : HttpHeader) → HeaderIn s fill p f → HeaderIn s fill q f
  HeaderIn-mono header_name f h = omega arith
  HeaderIn-mono header_value f (h, k) = (h, omega arith)
  HeaderIn-mono _ f h = h

  pub Recorded-mono : (s : ParseStep) (h : HttpHeaders) → Recorded s fill p h → Recorded s fill q h
  Recorded-mono s h (m, u, v, c, r, f, k) = (
    MethodIn-mono s h.method_header m,
    UriIn-mono s h.uri_header u,
    VersionIn-mono s h.version_header v,
    StatuscodeIn-mono s h.statuscode_header c,
    ReasonphraseIn-mono s h.reasonphrase_header r,
    HeaderIn-mono s (p_header h) f,
    k,
  )
