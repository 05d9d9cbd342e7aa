-- ===== src/Http/StartLine/Fields.antt =====
-- The steps on a start line (src/fasterhttp.c) whose fields stand whole in the data.
use hetao.Base.{ℕ, ◌+◌, ◌≤◌, ◌<◌, ◌≡◌, refl, ap, ◌≢◌, false, not, arith, ◌==◌, gt→leb}
use hetao.Http.Scan.{Next, jump, newline, is_newline, not_space, space_or_newline}
use hetao.Http.Scan.Stops.{find-at}
use hetao.Http.StartLine.{begin_field, end_field, end_line}
use hetao.Http.Types.{Memory, HttpBuffer, HttpEnv, Code}

-- No byte from `p` up to `q` is a space or a newline.
abbrev pub Word : Memory → ℕ → ℕ → Type 0
Word base p q = (i : ℕ) → p ≤ i → i < q → (base i ≢ b' ') × (base i ≢ newline)

differs : (a b : ℕ) → a ≢ b → (a == b) ≡ false
differs a b h = ground arith

pub begin_field-at :
    (refusal : Code) (begun : ℕ → HttpEnv) (b : HttpBuffer) (e : HttpEnv) (p q : ℕ)
    → Word b.base p q
    → p < q
    → p < b.fill_ptr
    → begin_field refusal begun b e p ≡ jump b (begun p) (p + 1)
unfolding begin_field
begin_field-at refusal begun b e p q w l h =
    let (s, n) = w p (omega arith) l in
    let at =
      find-at not_space b p p (omega arith) h (λ i g g'. absurd (omega arith))
        (ap not (differs (b.base p) b' ' s)) in
    rw (at, gt→leb b.fill_ptr p h, differs (b.base p) newline n) refl

pub end_field-at :
    (ended : ℕ → Next) (b : HttpBuffer) (e : HttpEnv) (p q : ℕ)
    → Word b.base p q
    → p ≤ q
    → q < b.fill_ptr
    → b.base q ≡ b' '
    → end_field ended b e p ≡ ended q
unfolding end_field
end_field-at ended b e p q w l h s =
    let at =
      find-at space_or_newline b p q l h
        (λ i g g'.
          rw (differs (b.base i) b' ' (w i g g').0, differs (b.base i) newline (w i g g').1) refl)
        (rw s refl) in
    rw (at, gt→leb b.fill_ptr q h, s) refl

pub end_line-at :
    (ended : ℕ → Next) (b : HttpBuffer) (e : HttpEnv) (p q : ℕ)
    → ((i : ℕ) → p ≤ i → i < q → b.base i ≢ newline)
    → p ≤ q
    → q < b.fill_ptr
    → b.base q ≡ newline
    → end_line ended b e p ≡ ended q
unfolding end_line
end_line-at ended b e p q w l h s =
    let at =
      find-at is_newline b p q l h (λ i g g'. differs (b.base i) newline (w i g g')) (rw s refl) in
    rw (at, gt→leb b.fill_ptr q h) refl
