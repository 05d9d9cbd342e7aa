-- ===== src/Http/Parse/Recorded/Headers.antt =====
-- The slices recorded by the steps of the header lines (src/fasterhttp.c, ParseHttpBuffer).
use hetao.Base.{
  ℕ, zero, suc, ◌+◌, ◌-◌, ◌*◌, ◌≤◌, ◌<◌, ◌≡◌, refl, inl, inr, true, ◌&&◌, List, [], ◌∷◌, ◌++◌,
  arith, ◌==◌, Bool-cases, get_or, modify, take, replicate,
}
use hetao.Base.Int.{ℤ, pos_part, sub_ℕ}
use hetao.Http.HeaderLine.{p_header, with_p_header}
use hetao.Http.HeaderValue.{
  value_is, name_is, content_length_text, transfer_encoding_text, chunked_text, trailer_text,
  connection_text, read_header, grow_headers, store_header,
}
use hetao.Http.Parse.Recorded.{ValueIn, NameIn, CountedIn, Recorded}
use hetao.Http.Types.{Memory, BufferName, HttpHeader, zero_header, HttpHeaders, done}

-- An array of which one element is changed.
modify-same {ℓ} :
    (P : HttpHeader → Type ℓ) (a : List HttpHeader) (i : ℕ) (f : HttpHeader)
    → P f
    → P zero_header
    → P (get_or (modify a i (λ _. f)) i zero_header)
modify-same P [] i f here z = z
modify-same P (x ∷ a) zero f here z = here
modify-same P (x ∷ a) (suc i) f here z = modify-same P a i f here z

modify-other :
    (a : List HttpHeader) (i j : ℕ) (f : HttpHeader)
    → j < i
    → get_or (modify a i (λ _. f)) j zero_header ≡ get_or a j zero_header
modify-other [] i j f l = refl
modify-other (x ∷ a) zero j f l = absurd (omega arith)
modify-other (x ∷ a) (suc i) zero f l = refl
modify-other (x ∷ a) (suc i) (suc j) f l = modify-other a i j f (omega arith)

replicate-Any {ℓ} :
    (P : HttpHeader → Type ℓ) (m i : ℕ)
    → P zero_header
    → P (get_or (replicate m zero_header) i zero_header)
replicate-Any P zero i z = z
replicate-Any P (suc m) zero z = z
replicate-Any P (suc m) (suc i) z = replicate-Any P m i z

grown-Any {ℓ} :
    (P : HttpHeader → Type ℓ) (a : List HttpHeader) (n m i : ℕ)
    → (i < n → P (get_or a i zero_header))
    → i < n
    → P zero_header
    → P (get_or (take n a ++ replicate m zero_header) i zero_header)
grown-Any P a zero m i h l z = absurd (omega arith)
grown-Any P [] (suc n) m i h l z = replicate-Any P m i z
grown-Any P (x ∷ a) (suc n) m zero h l z = h l
grown-Any P (x ∷ a) (suc n) m (suc i) h l z =
    grown-Any P a n m i (λ k. h (omega arith)) (omega arith) z

pub pos_part-sub_ℕ : (a b : ℕ) → pos_part (sub_ℕ a b) ≤ a
pos_part-sub_ℕ a b = ground arith

-- The header that is being read is changed; the counted ones are not.
pub with_p_header-CountedIn :
    (fill : ℕ) (h : HttpHeaders) (f : HttpHeader)
    → CountedIn fill h.header_array h.header_array_count
    → CountedIn fill (with_p_header h f).header_array h.header_array_count
with_p_header-CountedIn fill h f c i l =
    rw (modify-other h.header_array h.header_array_count i f l) (c i l)

pub with_p_header-same {ℓ} :
    (P : HttpHeader → Type ℓ) (h : HttpHeaders) (f : HttpHeader)
    → P f
    → P zero_header
    → P (p_header (with_p_header h f))
with_p_header-same P h f here z = modify-same P h.header_array h.header_array_count f here z

pub grow_headers-CountedIn :
    (fill : ℕ) (h : HttpHeaders)
    → CountedIn fill h.header_array h.header_array_count
    → CountedIn fill (grow_headers h).header_array h.header_array_count
grow_headers-CountedIn fill h c i l =
    grown-Any (λ f. NameIn fill f × ValueIn fill f) h.header_array h.header_array_count
      (h.header_array_size * 2 - h.header_array_count) i (c i) l (omega arith, omega arith)

-- What holds whatever the parser's own headers say.
read_header-Any {ℓ} :
    (P : HttpHeaders → Type ℓ) (base : Memory) (n : ℕ) (name : BufferName) (f : HttpHeader)
    (h : HttpHeaders)
    → ((c : ℤ) → P (record h { content_length = c }))
    → P (record h { transfer_encoding_chunked = true })
    → ((t : HttpHeader) → P (record h { trailer_header = t }))
    → ((k : ℤ) → P (record h { connection_keepalive = k }))
    → P h
    → P (read_header base n name f h)
unfolding read_header
read_header-Any P base n name f h content chunked trailer connection same =
    elim (Bool-cases (name_is base f content_length_text)) [
      | inl a ↦ rw a (content _)
      | inr a ↦
          elim (Bool-cases
            (name_is base f transfer_encoding_text && value_is base f chunked_text)) [
              | inl t ↦ rw (a, t) chunked
              | inr t ↦ elim (Bool-cases (name_is base f trailer_text)) [
                | inl u ↦ rw (a, t, u) (trailer _)
                | inr u ↦ elim (Bool-cases (name_is base f connection_text)) [
                  | inl w ↦ rw (a, t, u, w) (connection _)
                  | inr w ↦ rw (a, t, u, w) same
                ]
              ]
            ]
    ]

-- No field is being read.
abbrev pub Closed : ℕ → HttpHeaders → Type 0
Closed fill h = Recorded done fill fill h

module _ (base : Memory) (fill n : ℕ) (name : BufferName) (f : HttpHeader) (h : HttpHeaders)
    (r : Closed fill h) (name_in : NameIn fill f) (value_in : ValueIn fill f) where
  one_more-CountedIn : CountedIn fill (with_p_header h f).header_array (h.header_array_count + 1)
  one_more-CountedIn i l = elim (Bool-cases (i == h.header_array_count)) [
    | inl e ↦
        let same : i ≡ h.header_array_count = ground arith in
        rw same (
          with_p_header-same (λ g. NameIn fill g × ValueIn fill g) h f (name_in, value_in)
            (omega arith, omega arith))
    | inr e ↦ let (m, u, v, c, w, t, k) = r in with_p_header-CountedIn fill h f k i (ground arith)
  ]

  pub store_header-Closed : Closed fill (store_header base n name f h)
  unfolding store_header
  store_header-Closed =
      let (m, u, v, c, w, t, k) = r in
      let all : Closed fill
          (record (with_p_header h f) { header_array_count = h.header_array_count + 1 }) =
        (m, u, v, c, w, t, one_more-CountedIn) in
      read_header-Any
        (λ g. Closed fill (record g { header_array_count = g.header_array_count + 1 })) base n name
        f (with_p_header h f) (λ x. all) all (λ x. all) (λ x. all) all
