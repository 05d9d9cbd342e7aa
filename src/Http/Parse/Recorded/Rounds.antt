-- ===== src/Http/Parse/Recorded/Rounds.antt =====
-- The slices recorded by each round of `ParseHttpBuffer` (src/fasterhttp.c).
use hetao.Base.{
  ℕ, ◌+◌, ◌-◌, ◌*◌, ◌≤◌, ◌<◌, ◌≡◌, inl, inr, Bool, true, false, some, arith, leb, ◌==◌, leb→gt,
  Bool-cases,
}
use hetao.Base.Int.{pos, ltb_ℤ}
use hetao.Http.HeaderLine.{
  p_header, with_p_header, go_parsing_body, is_head, step_header_name0, step_header_name,
  step_header_value0,
}
use hetao.Http.HeaderValue.{
  trimmed, is_trailer, next_header, after_header, ended_header, store_header, end_header,
  step_header_value,
}
use hetao.Http.Parse.Recorded.{NameIn, Recorded, Records}
use hetao.Http.Parse.Recorded.Fields.{begin_field-Records, end_line-Records}
use hetao.Http.Parse.Recorded.Headers.{
  pos_part-sub_ℕ, with_p_header-CountedIn, with_p_header-same, grow_headers-CountedIn, Closed,
  store_header-Closed,
}
use hetao.Http.Scan.{find, newline, carriage_return, not_space, colon_or_newline, name_end}
use hetao.Http.Scan.Walks.{find_range}
use hetao.Http.Types.{
  HttpBuffer, BufferName, HttpHeader, HttpHeaders, header_name0, header_name, header_value0,
  header_value, HttpEnv,
}

module _ (b : HttpBuffer) (e : HttpEnv) (p : ℕ) where
  go_parsing_body-Records :
      (i : Bool) (name : BufferName)
      → Closed b.fill_ptr e.headers
      → Records b.fill_ptr (go_parsing_body i name b e p)
  unfolding go_parsing_body
  go_parsing_body-Records true name r = r
  go_parsing_body-Records false name r =
      elim (Bool-cases (ltb_ℤ (pos 0) e.headers.content_length)) [
        | inl f ↦ rw f r
        | inr f ↦ elim (Bool-cases e.headers.transfer_encoding_chunked) [
          | inl g ↦ rw (f, g) r
          | inr g ↦ rw (f, g) r
        ]
      ]

  after_header-Records :
      (realloc_succeeds : ℕ → Bool) (f : HttpHeader) (h : HttpHeaders)
      → Closed b.fill_ptr h
      → Records b.fill_ptr (after_header realloc_succeeds b e p f h)
  unfolding after_header next_header
  after_header-Records realloc_succeeds f h r =
      let (m, u, v, c, w, t, k) = r in
      elim (Bool-cases (is_trailer b.base f h)) [
        | inl i ↦ rw i r
        | inr i ↦ elim (Bool-cases (leb h.header_array_size h.header_array_count)) [
          | inl l ↦ elim (Bool-cases (realloc_succeeds (h.header_array_size * 2))) [
            | inl g ↦ rw (i, l, g) (m, u, v, c, w, t, grow_headers-CountedIn b.fill_ptr h k)
            | inr g ↦ rw (i, l, g) r
          ]
          | inr l ↦ rw (i, l) r
        ]
      ]

module _ (b : HttpBuffer) (e : HttpEnv) (p : ℕ) (l : p ≤ b.fill_ptr)
    (r : Recorded e.parse_step b.fill_ptr p e.headers) where
  pub step_header_value-Records :
      (realloc_succeeds : ℕ → Bool) (name : BufferName)
      → e.parse_step ≡ header_value
      → Records b.fill_ptr (step_header_value realloc_succeeds name b e p)
  unfolding step_header_value
  step_header_value-Records realloc_succeeds name at =
      let r' : Recorded header_value b.fill_ptr p e.headers = rw at at r in
      let (m, u, v, c, w, (t, o), k) = r' in
      end_line-Records b e p l r (end_header realloc_succeeds name b e) (λ q g inside.
        let f = ended_header b.base q (p_header e.headers) in
        let h = store_header b.base b.buf_size name f e.headers in
        let z = pos_part-sub_ℕ (q - f.value_offset) (trimmed b.base q) in
        unfold end_header in
        after_header-Records b e (q + 1) realloc_succeeds f h (
          store_header-Closed b.base b.fill_ptr b.buf_size name f e.headers (m, u, v, c, w, tt, k) t
            (omega arith)))

  pub step_header_name0-Records :
      (name : BufferName)
      → e.parse_step ≡ header_name0
      → Records b.fill_ptr (step_header_name0 name b e p)
  unfolding step_header_name0
  step_header_name0-Records name at =
      let q = find not_space b p in
      let h = e.headers in
      let r' : Closed b.fill_ptr h = rw at at r in
      let (m, u, v, c, w, t, k) = r' in
      let begun = record (p_header h) { p_buffer = some name; name_offset = q } in
      elim (Bool-cases (leb b.fill_ptr q)) [
        | inl f ↦ rw (f, at) r'
        | inr f ↦ elim (Bool-cases (b.base q == carriage_return)) [
          | inl g ↦ elim (Bool-cases (leb b.fill_ptr (q + 1))) [
            | inl i ↦ rw (f, g, i, at) r'
            | inr i ↦ rw (f, g, i) (go_parsing_body-Records b e _ (is_head h) name r')
          ]
          | inr g ↦ elim (Bool-cases (b.base q == newline)) [
            | inl i ↦ rw (f, g, i) (go_parsing_body-Records b e _ (is_head h) name r')
            | inr i ↦
                rw (f, g, i)
                  (
                    m,
                    u,
                    v,
                    c,
                    w,
                    with_p_header-same (λ x. x.name_offset ≤ q + 1) h begun (omega arith)
                        (omega arith),
                    with_p_header-CountedIn b.fill_ptr h begun k,
                  )
          ]
        ]
      ]

  pub step_header_name-Records :
      e.parse_step ≡ header_name → Records b.fill_ptr (step_header_name b e p)
  unfolding step_header_name
  step_header_name-Records at =
      let h = e.headers in
      let q = find name_end b p in
      let (q_range, q_range') = find_range name_end b p in
      let j = find colon_or_newline b q in
      let (j_range, j_range') = find_range colon_or_newline b q in
      let f = record (p_header h) { name_len = q - (p_header h).name_offset } in
      let r' : Recorded header_name b.fill_ptr p h = rw at at r in
      let (m, u, v, c, w, t, k) = r' in
      let k' = with_p_header-CountedIn b.fill_ptr h f k in
      let still : (x : ℕ) → q ≤ x → Recorded header_name b.fill_ptr x (with_p_header h f) = λ x y. (
        m,
        u,
        v,
        c,
        w,
        with_p_header-same (λ g. g.name_offset ≤ x) h f (omega arith) (omega arith),
        k',
      ) in
      elim (Bool-cases (leb b.fill_ptr q)) [
        | inl a ↦ rw (a, at) (m, u, v, c, w, omega arith, k)
        | inr a ↦
            let inside : q < b.fill_ptr = leb→gt _ _ a in
            elim (Bool-cases (b.base q == newline)) [
              | inl g ↦ rw (a, g, at) (m, u, v, c, w, omega arith, k)
              | inr g ↦ elim (Bool-cases (b.base j == newline)) [
                | inl i ↦ rw (a, g, i, at) (still b.fill_ptr (omega arith))
                | inr i ↦ elim (Bool-cases (leb b.fill_ptr j)) [
                  | inl d ↦ rw (a, g, i, d, at) (still j (omega arith))
                  | inr d ↦
                      rw (a, g, i, d)
                        (
                          m,
                          u,
                          v,
                          c,
                          w,
                          with_p_header-same (NameIn b.fill_ptr) h f (omega arith) (omega arith),
                          k',
                        )
                ]
              ]
            ]
      ]

  pub step_header_value0-Records :
      e.parse_step ≡ header_value0 → Records b.fill_ptr (step_header_value0 b e p)
  unfolding step_header_value0
  step_header_value0-Records at =
      let h = e.headers in
      let r' : Recorded header_value0 b.fill_ptr p h = rw at at r in
      let (m, u, v, c, w, t, k) = r' in
      begin_field-Records b e p l r _ _ (λ x. rw at r') (rw at r')
        (λ q inside.
          let f = record (p_header h) { value_offset = q } in
          (
            m,
            u,
            v,
            c,
            w,
            with_p_header-same (λ g. NameIn b.fill_ptr g × (g.value_offset ≤ q + 1)) h f
                (t, omega arith) (omega arith, omega arith),
            with_p_header-CountedIn b.fill_ptr h f k,
          ))
