-- ===== src/Http/Parse/Recorded/Bodies.antt =====
-- The slices recorded where `ParseHttpBuffer` (src/fasterhttp.c) reads a body.
use hetao.Base.{ℕ, ◌+◌, ◌-◌, ◌≡◌, inl, inr, Option, none, some, ltb, leb, ◌==◌, Bool-cases}
use hetao.Base.Int.{pos, pos_part, neg_part, ◌+ℤ◌, int_max}
use hetao.Http.Body.{
  step_body, read_size, end_size, after_size, step_chunked_size, step_chunked_data,
}
use hetao.Http.Parse.Recorded.{Records}
use hetao.Http.Parse.Recorded.Headers.{Closed}
use hetao.Http.Types.{HttpBuffer, body, chunked_size, chunked_data, HttpEnv}

module _ (b : HttpBuffer) (e : HttpEnv) (r : Closed b.fill_ptr e.headers) where
  pub step_body-Records : e.parse_step ≡ body → Records b.fill_ptr (step_body b e)
  unfolding step_body
  step_body-Records at =
      let total = e.headers.content_length in
      elim (Bool-cases (leb (e.body_base_offset + pos_part total) (b.fill_ptr + neg_part total))) [
        | inl f ↦ rw f r
        | inr f ↦ rw (f, at) r
      ]

  after_size-Records :
      (o : Option (ℕ × ℕ × ℕ)) → e.parse_step ≡ chunked_size → Records b.fill_ptr (after_size b e o)
  unfolding after_size end_size
  after_size-Records none at = tt
  after_size-Records (some (q, total, digits)) at = elim (Bool-cases (leb b.fill_ptr q)) [
    | inl f ↦ rw (f, at) r
    | inr f ↦ elim (Bool-cases (total == 0)) [
      | inl g ↦ elim (Bool-cases (e.headers.trailer_header.value_offset == 0)) [
        | inl i ↦ rw (f, g, i) r
        | inr i ↦ rw (f, g, i) r
      ]
      | inr g ↦ rw (f, g) r
    ]
  ]

  pub step_chunked_size-Records :
      (p : ℕ) → e.parse_step ≡ chunked_size → Records b.fill_ptr (step_chunked_size b e p)
  unfolding step_chunked_size
  step_chunked_size-Records p at =
      after_size-Records
        (read_size b.base (b.fill_ptr - p) p e.chunked_length e.chunked_length_length) at

  pub step_chunked_data-Records :
      e.parse_step ≡ chunked_data → Records b.fill_ptr (step_chunked_data b e)
  unfolding step_chunked_data
  step_chunked_data-Records at =
      let n = e.chunked_length in
      elim (Bool-cases (ltb int_max (n + 2))) [
        | inl f ↦ rw f tt
        | inr f ↦ elim (Bool-cases (leb (n + 2) (b.fill_ptr - e.chunked_body))) [
          | inl g ↦ elim (Bool-cases (ltb int_max (pos_part (e.headers.content_length +ℤ pos n)))) [
            | inl i ↦ rw (f, g, i) tt
            | inr i ↦ rw (f, g, i) r
          ]
          | inr g ↦ rw (f, g, at) r
        ]
      ]
