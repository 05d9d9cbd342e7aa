-- ===== src/Http/Parse/Resume/Dispatch.antt =====
-- A round of `ParseHttpBuffer` (src/fasterhttp.c) in the start line, on the first piece of a message
-- and on all of it.
use hetao.Base.{ℕ, ◌-◌, ◌≤◌, ◌<◌, ◌≡◌, refl, inl, inr, Bool, true, arith, Option-cases}
use hetao.Http.Parse.{dispatch}
use hetao.Http.Parse.Resume.Steps.{
  method_of-same, version_of-same, is_start_line, NoNewline, Continues, begin_field-Continues,
  end_field-Continues, end_line-Continues,
}
use hetao.Http.Parse.Resume.Walk.{Extends}
use hetao.Http.Parse.Runs.{again}
use hetao.Http.StartLine.{
  begin_field, method_of, version_of, step_method0, accept_method, step_method, step_uri0, step_uri,
  step_version0, accept_version, step_request_version, step_response_version, step_statuscode0,
  step_statuscode, step_reasonphrase0, step_reasonphrase,
}
use hetao.Http.Types.{
  HttpBuffer, BufferName, HttpHeaders, ParseStep, begin, request_method0, request_method,
  request_uri0, request_uri, request_version0, request_version, response_version0, response_version,
  response_statuscode0, response_statuscode, response_reasonphrase0, response_reasonphrase,
  header_name0, header_name, header_value0, header_value, body, chunked_size, chunked_data, done,
  HttpEnv, Code,
}

module _ (realloc_succeeds : ℕ → Bool) (name : BufferName) (b c : HttpBuffer) (x : Extends b c)
    (e : HttpEnv) (p q : ℕ) (l : p ≤ q) (inside : q < b.fill_ptr) where
  accept_method-Continues :
      (h : HttpHeaders)
      → Continues realloc_succeeds name b c x p (accept_method b e q h) (accept_method c e q h)
  unfolding accept_method
  accept_method-Continues h =
      let off = h.method_header.value_offset in
      let same = method_of-same b.base c.base off (q - off) (λ i g f. x.agrees i (omega arith)) in
      elim (Option-cases (method_of b.base off (q - off))) [
        | inl u ↦ rw (same, u) (λ v. cc)
        | inr (m, u) ↦ rw (same, u) (refl, omega arith, omega arith, refl, refl)
      ]

  accept_version-Continues :
      (next : ParseStep) (len : ℕ) (h : HttpHeaders)
      → is_start_line next ≡ true
      → len ≡ q - h.version_header.value_offset
      → Continues realloc_succeeds name b c x p
          (accept_version next b e q len h)
          (accept_version next c e q len h)
  unfolding accept_version
  accept_version-Continues next len h starts span =
      let off = h.version_header.value_offset in
      let same =
        version_of-same b.base c.base off len (λ i g f. x.agrees i (omega arith)) h.version in
      elim (Option-cases (version_of b.base off len h.version)) [
        | inl u ↦ rw (same, u) (λ v. cc)
        | inr (v, u) ↦ rw (same, u) (refl, omega arith, omega arith, starts, refl)
      ]

module _ (realloc_succeeds : ℕ → Bool) (name : BufferName) (b c : HttpBuffer) (x : Extends b c)
    (e : HttpEnv) (p : ℕ) (l : p ≤ b.fill_ptr) (one_line : NoNewline b p) where
  abbrev ContinuesAt : ParseStep → Type 0
  ContinuesAt s =
      Continues realloc_succeeds name b c x p (dispatch realloc_succeeds name s b e p)
        (dispatch realloc_succeeds name s c e p)

  begins :
      (refusal : Code) (begun : ℕ → HttpEnv)
      → is_start_line e.parse_step ≡ true
      → ((q : ℕ) → is_start_line (begun q).parse_step ≡ true)
      → ((q : ℕ)
          → dispatch realloc_succeeds name e.parse_step c e q ≡ begin_field refusal begun c e q)
      → Continues realloc_succeeds name b c x p
          (begin_field refusal begun b e p)
          (begin_field refusal begun c e p)
  begins refusal begun at_start starts again =
      begin_field-Continues realloc_succeeds name b c x e p l one_line at_start refusal begun starts
        again

  -- A round in the start line, where no newline has come.
  pub dispatch-Continues :
      (s : ParseStep) → e.parse_step ≡ s → is_start_line s ≡ true → ContinuesAt s
  unfolding dispatch step_method0 step_method step_uri0 step_uri step_version0 step_request_version
      step_response_version step_statuscode0 step_statuscode step_reasonphrase0 step_reasonphrase
  dispatch-Continues request_method0 h at_start =
      begins _ _ (rw h refl) (λ q. refl) (λ q. rw h refl)
  dispatch-Continues request_method h at_start =
      end_field-Continues realloc_succeeds name b c x e p l one_line (rw h refl) _ _
        (λ q g f. accept_method-Continues realloc_succeeds name b c x e p q g f _) (λ q. rw h refl)
  dispatch-Continues request_uri0 h at_start = begins _ _ (rw h refl) (λ q. refl) (λ q. rw h refl)
  dispatch-Continues request_uri h at_start =
      end_field-Continues realloc_succeeds name b c x e p l one_line (rw h refl) _ _
        (λ q g f. (refl, omega arith, omega arith, refl, refl)) (λ q. rw h refl)
  dispatch-Continues request_version0 h at_start =
      begins _ _ (rw h refl) (λ q. refl) (λ q. rw h refl)
  dispatch-Continues request_version h at_start =
      end_line-Continues realloc_succeeds name b c x e p l one_line (rw h refl) _ _ (λ q. rw h refl)
  dispatch-Continues response_version0 h at_start =
      begins _ _ (rw h refl) (λ q. refl) (λ q. rw h refl)
  dispatch-Continues response_version h at_start =
      end_field-Continues realloc_succeeds name b c x e p l one_line (rw h refl) _ _
        (λ q g f.
          accept_version-Continues realloc_succeeds name b c x e p q g f response_statuscode0 _ _
            refl refl)
        (λ q. rw h refl)
  dispatch-Continues response_statuscode0 h at_start =
      begins _ _ (rw h refl) (λ q. refl) (λ q. rw h refl)
  dispatch-Continues response_statuscode h at_start =
      end_field-Continues realloc_succeeds name b c x e p l one_line (rw h refl) _ _
        (λ q g f. (refl, omega arith, omega arith, refl, refl)) (λ q. rw h refl)
  dispatch-Continues response_reasonphrase0 h at_start =
      begins _ _ (rw h refl) (λ q. refl) (λ q. rw h refl)
  dispatch-Continues response_reasonphrase h at_start =
      end_line-Continues realloc_succeeds name b c x e p l one_line (rw h refl) _ _ (λ q. rw h refl)
  dispatch-Continues begin h at_start = cc
  dispatch-Continues header_name0 h at_start = cc
  dispatch-Continues header_name h at_start = cc
  dispatch-Continues header_value0 h at_start = cc
  dispatch-Continues header_value h at_start = cc
  dispatch-Continues body h at_start = cc
  dispatch-Continues chunked_size h at_start = cc
  dispatch-Continues chunked_data h at_start = cc
  dispatch-Continues done h at_start = cc
