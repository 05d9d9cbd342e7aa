-- ===== src/Http/Query/Named.antt =====
-- QueryHttpHeader and TravelHttpHeaderPtr of src/fasterhttp.c: which header they return.
use hetao.Base.{
  ℕ, zero, suc, ◌+◌, ◌-◌, ◌≤◌, ◌<◌, ◌≡◌, refl, sym, ap, ◌∙◌, ◌↔◌, Bool, true, false, ◌&&◌, Option,
  none, some, List, [], ◌∷◌, arith, ◌==◌, ==_iff, length, get_or,
}
use hetao.Http.Query.{
  Buffers, has_base, base_of, is_named, query_http_header, header_at, has_name,
  travel_http_header_ptr,
}
use hetao.Http.Query.First.{First, find_header-First}
use hetao.Http.Scan.{bytes_are}
use hetao.Http.Types.{Memory, HttpHeader, HttpEnv}

-- The header has exactly this name, in a buffer with memory.
pub record HasName (buffers : Buffers) (name : List ℕ) (h : HttpHeader) : Type 0 where
  pub memory : has_base buffers h.p_buffer ≡ true
  pub name_length : h.name_len ≡ length name
  pub name_bytes :
      (j : ℕ) → j < length name → base_of buffers h.p_buffer (h.name_offset + j) ≡ get_or name j 0

add_zero : (p : ℕ) → p + 0 ≡ p
add_zero p = omega arith

add_suc : (p j : ℕ) → p + suc j ≡ suc p + j
add_suc p j = omega arith

and_iff : (a b : Bool) → ((a && b) ≡ true) ↔ ((a ≡ true) × (b ≡ true))
and_iff a b = ground arith

-- The comparison of bytes, in both directions.
bytes_are-holds :
    (base : Memory) (p : ℕ) (name : List ℕ)
    → bytes_are base p name ≡ true
    → (j : ℕ) → j < length name
    → base (p + j) ≡ get_or name j 0
unfolding bytes_are
bytes_are-holds base p [] e j l = absurd (omega arith)
bytes_are-holds base p (c ∷ name) e zero l =
    let (same, rest) = (and_iff (base p == c) (bytes_are base (suc p) name)).0 e in
    ap base (add_zero p) ∙ (==_iff (base p) c).0 same
bytes_are-holds base p (c ∷ name) e (suc j) l =
    let (same, rest) = (and_iff (base p == c) (bytes_are base (suc p) name)).0 e in
    ap base (add_suc p j) ∙ bytes_are-holds base (suc p) name rest j (omega arith)

holds-bytes_are :
    (base : Memory) (p : ℕ) (name : List ℕ)
    → ((j : ℕ) → j < length name → base (p + j) ≡ get_or name j 0)
    → bytes_are base p name ≡ true
unfolding bytes_are
holds-bytes_are base p [] f = refl
holds-bytes_are base p (c ∷ name) f = (and_iff (base p == c) (bytes_are base (suc p) name)).1 (
  (==_iff (base p) c).1 (sym (ap base (add_zero p)) ∙ f 0 (omega arith)),
  holds-bytes_are base (suc p) name (λ j l. sym (ap base (add_suc p j)) ∙ f (suc j) (omega arith)),
)

is_named_iff :
    (buffers : Buffers) (name : List ℕ) (h : HttpHeader)
    → (is_named buffers name h ≡ true) ↔ HasName buffers name h
unfolding is_named
is_named_iff buffers name h =
    let base = base_of buffers h.p_buffer in
    let bytes = bytes_are base h.name_offset name in
    let outer = and_iff (has_base buffers h.p_buffer) ((h.name_len == length name) && bytes) in
    let inner = and_iff (h.name_len == length name) bytes in
    (
      λ e.
          let (m, e') = outer.0 e in
          let (l, b) = inner.0 e' in
          record {
            memory = m;
            name_length = (==_iff h.name_len (length name)).0 l;
            name_bytes = bytes_are-holds base h.name_offset name b;
          },
      λ k. outer.1 (
        k.memory,
        inner.1 (
          (==_iff h.name_len (length name)).1 k.name_length,
          holds-bytes_are base h.name_offset name k.name_bytes,
        ),
      ),
    )

-- `some i` where `i` is the first header below `n` of this name; none where none has it.
abbrev pub Queried : Buffers → HttpEnv → List ℕ → Option ℕ → Type 0
Queried buffers e name none =
    (j : ℕ) → j < e.headers.header_array_size → ¬ HasName buffers name (header_at e j)
Queried buffers e name (some i) =
    (i < e.headers.header_array_size)
    × HasName buffers name (header_at e i)
    × ((j : ℕ) → j < i → ¬ HasName buffers name (header_at e j))

not_named :
    (buffers : Buffers) (name : List ℕ) (h : HttpHeader)
    → is_named buffers name h ≡ false
    → ¬ HasName buffers name h
not_named buffers name h e k = ground (arith, e, (is_named_iff buffers name h).1 k)

Queried-of_First :
    (buffers : Buffers) (e : HttpEnv) (name : List ℕ) (o : Option ℕ)
    → First (is_named buffers name) e.headers.header_array 0 e.headers.header_array_size o
    → Queried buffers e name o
Queried-of_First buffers e name none f =
    λ j l. not_named buffers name (header_at e j) (f j (omega arith) l)
Queried-of_First buffers e name (some i) (l, l', t, f) = (
  l',
  (is_named_iff buffers name (header_at e i)).0 t,
  λ j l. not_named buffers name (header_at e j) (f j (omega arith) l),
)

-- `QueryHttpHeader` returns the first header of the array whose buffer has memory and whose name
-- is byte for byte the text given; it returns NULL exactly where there is none.
pub query_http_header-Queried :
    (buffers : Buffers) (e : HttpEnv) (name : List ℕ)
    → Queried buffers e name (query_http_header buffers e name)
unfolding query_http_header
query_http_header-Queried buffers e name = Queried-of_First buffers e name _ (
    find_header-First (is_named buffers name) e.headers.header_array e.headers.header_array_size 0
      e.headers.header_array_size (omega arith))

-- Where the walk goes on: behind a header, or at the first.
abbrev pub behind_header : Option ℕ → ℕ
behind_header none = 0
behind_header (some p) = p + 1

-- `TravelHttpHeaderPtr` returns the first header with a name behind the one given, or the first of
-- all behind NULL; it returns NULL exactly where none is left.
pub travel_http_header_ptr-First :
    (e : HttpEnv) (o : Option ℕ)
    → behind_header o ≤ e.headers.header_array_size
    → First has_name e.headers.header_array
        (behind_header o)
        e.headers.header_array_size
        (travel_http_header_ptr e o)
unfolding travel_http_header_ptr
travel_http_header_ptr-First e none l =
    find_header-First has_name e.headers.header_array e.headers.header_array_size 0
      e.headers.header_array_size (omega arith)
travel_http_header_ptr-First e (some p) l =
    find_header-First has_name e.headers.header_array (e.headers.header_array_size - (p + 1))
      (p + 1) e.headers.header_array_size (omega arith)
