-- ===== src/Http/Parse/Recorded/Fields.antt =====
-- The slices recorded by the steps of the start line (src/fasterhttp.c, ParseHttpBuffer).
use hetao.Base.{ℕ, ◌+◌, ◌-◌, ◌≤◌, ◌<◌, inl, inr, leb, ◌==◌, leb→gt, Bool-cases, Option-cases}
use hetao.Http.Parse.Recorded.{Recorded, LeavesRecorded, Records, Recorded-mono}
use hetao.Http.Scan.{Next, find, newline, is_newline, not_space, space_or_newline}
use hetao.Http.Scan.Walks.{find_range}
use hetao.Http.StartLine.{
  begin_field, end_field, end_line, method_of, version_of, accept_method, accept_version,
}
use hetao.Http.Types.{HttpBuffer, HttpHeaders, ParseStep, request_uri0, HttpEnv, Code}

module _ (b : HttpBuffer) (e : HttpEnv) (p : ℕ) (l : p ≤ b.fill_ptr)
    (r : Recorded e.parse_step b.fill_ptr p e.headers) where
  pub begin_field-Records :
      (c : Code) (begun : ℕ → HttpEnv)
      → ((x : ℕ) → Recorded e.parse_step b.fill_ptr x e.headers)
      → LeavesRecorded b.fill_ptr b e c
      → ((q : ℕ)
          → q < b.fill_ptr
          → Recorded (begun q).parse_step b.fill_ptr (q + 1) (begun q).headers)
      → Records b.fill_ptr (begin_field c begun b e p)
  unfolding begin_field
  begin_field-Records c begun closed turned_down h =
      let q = find not_space b p in
      elim (Bool-cases (leb b.fill_ptr q)) [
        | inl f ↦ rw f (closed q)
        | inr f ↦
            let inside : q < b.fill_ptr = leb→gt _ _ f in
            elim (Bool-cases (b.base q == newline)) [
              | inl n ↦ rw (f, n) turned_down
              | inr n ↦ rw (f, n) (h q inside)
            ]
      ]

  pub end_field-Records :
      (ended : ℕ → Next)
      → ((q : ℕ) → p ≤ q → q < b.fill_ptr → Records b.fill_ptr (ended q))
      → Records b.fill_ptr (end_field ended b e p)
  unfolding end_field
  end_field-Records ended h =
      let q = find space_or_newline b p in
      let (g, g') = find_range space_or_newline b p in
      elim (Bool-cases (leb b.fill_ptr q)) [
        | inl f ↦ rw f (Recorded-mono b.fill_ptr p q g e.parse_step e.headers r)
        | inr f ↦
            let inside : q < b.fill_ptr = leb→gt _ _ f in
            elim (Bool-cases (b.base q == newline)) [
              | inl n ↦ rw (f, n) (Recorded-mono b.fill_ptr p b.fill_ptr l e.parse_step e.headers r)
              | inr n ↦ rw (f, n) (h q g inside)
            ]
      ]

  pub end_line-Records :
      (ended : ℕ → Next)
      → ((q : ℕ) → p ≤ q → q < b.fill_ptr → Records b.fill_ptr (ended q))
      → Records b.fill_ptr (end_line ended b e p)
  unfolding end_line
  end_line-Records ended h =
      let q = find is_newline b p in
      let (g, g') = find_range is_newline b p in
      elim (Bool-cases (leb b.fill_ptr q)) [
        | inl f ↦ rw f (Recorded-mono b.fill_ptr p q g e.parse_step e.headers r)
        | inr f ↦ rw f (h q g (leb→gt _ _ f))
      ]

module _ (b : HttpBuffer) (e : HttpEnv) (q : ℕ) where
  pub accept_method-Records :
      (h : HttpHeaders)
      → Recorded e.parse_step b.fill_ptr b.fill_ptr h
      → Recorded request_uri0 b.fill_ptr (q + 1) h
      → Records b.fill_ptr (accept_method b e q h)
  unfolding accept_method
  accept_method-Records h turned_down known =
      let off = h.method_header.value_offset in
      elim (Option-cases (method_of b.base off (q - off))) [
        | inl u ↦ rw u turned_down
        | inr (m, u) ↦ rw u known
      ]

  pub accept_version-Records :
      (next : ParseStep) (len : ℕ) (h : HttpHeaders)
      → Recorded e.parse_step b.fill_ptr b.fill_ptr h
      → Recorded next b.fill_ptr (q + 1) h
      → Records b.fill_ptr (accept_version next b e q len h)
  unfolding accept_version
  accept_version-Records next len h turned_down known =
      elim (Option-cases (version_of b.base h.version_header.value_offset len h.version)) [
        | inl u ↦ rw u turned_down
        | inr (v, u) ↦ rw u known
      ]
