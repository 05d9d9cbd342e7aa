-- ===== src/Http/SplitUri/Loops.antt =====
-- Where the two loops of `SplitHttpUri` (src/fasterhttp.c) end.
use hetao.Base.{
  ℕ, zero, suc, ◌+◌, ◌-◌, ◌≤◌, ◌<◌, ◌≡◌, ◌≢◌, inl, inr, Option, none, some, arith, ◌==◌,
  if◌then◌else◌, ==_iff, Bool-cases,
}
use hetao.Http.SplitUri.{last_slash, Marks, marks, see_byte, find_marks}
use hetao.Http.Types.{Memory}
use mathlib.Core.Path.{subst}

-- No byte from `lo` up to `hi` is `mark`.
abbrev pub Lacks : Memory → ℕ → ℕ → ℕ → Type 0
Lacks uri mark lo hi = (i : ℕ) → lo ≤ i → i < hi → uri i ≢ mark

-- `o` points to the last byte `mark` of a part of the URI, or is NULL where there is none.
abbrev pub IsLast : Memory → ℕ → ℕ → ℕ → Option ℕ → Type 0
IsLast uri mark lo hi none = Lacks uri mark lo hi
IsLast uri mark lo hi (some p) = (lo ≤ p) × (p < hi) × (uri p ≡ mark) × Lacks uri mark (p + 1) hi

-- A question mark stands in front of `i`.
abbrev pub Parameter : Memory → ℕ → ℕ → Type 0
Parameter uri lo i = (j : ℕ) × (lo ≤ j) × (j < i) × (uri j ≡ b'?')

-- `o` points to the last dot in front of every question mark, or is NULL where there is none.
abbrev pub IsLastDot : Memory → ℕ → ℕ → Option ℕ → Type 0
IsLastDot uri lo hi none = (i : ℕ) → lo ≤ i → i < hi → uri i ≡ b'.' → Parameter uri lo i
IsLastDot uri lo hi (some d) =
    (lo ≤ d)
    × (d < hi)
    × (uri d ≡ b'.')
    × Lacks uri b'?' lo d
    × ((i : ℕ) → d < i → i < hi → uri i ≡ b'.' → Parameter uri lo i)

pub record IsMarked (uri : Memory) (lo hi : ℕ) (m : Marks) : Type 0 where
  pub question_last : IsLast uri b'?' lo hi m.p_question_mark
  pub dot_last : IsLastDot uri lo hi m.p_dot

Lacks-suc :
    (uri : Memory) (mark lo hi : ℕ)
    → uri hi ≢ mark
    → Lacks uri mark lo hi
    → Lacks uri mark lo (suc hi)
Lacks-suc uri mark lo hi differs k i l h e = elim (Bool-cases (i == hi)) [
  | inl t ↦ let same : i ≡ hi = ground arith in differs (rw same at e)
  | inr t ↦ k i l (ground arith) e
]

IsLast-suc :
    (uri : Memory) (mark lo hi : ℕ) (o : Option ℕ)
    → uri hi ≢ mark
    → IsLast uri mark lo hi o
    → IsLast uri mark lo (suc hi) o
IsLast-suc uri mark lo hi none differs k = Lacks-suc uri mark lo hi differs k
IsLast-suc uri mark lo hi (some p) differs (l, h, e, k) =
    (l, omega arith, e, Lacks-suc uri mark (p + 1) hi differs k)

pub last_slash-IsLast : (uri : Memory) (n : ℕ) → IsLast uri b'/' 0 n (last_slash uri n)
unfolding last_slash
last_slash-IsLast uri zero = λ i l h e. omega arith
last_slash-IsLast uri (suc p) = elim (Bool-cases (uri p == b'/')) [
  | inl e ↦ rw e (omega arith, omega arith, (==_iff (uri p) b'/').0 e, λ i l h f. omega arith)
  | inr e ↦
      rw e
        (IsLast-suc uri b'/' 0 p (last_slash uri p) (λ f. ground arith) (last_slash-IsLast uri p))
]

module _ (uri : Memory) (lo : ℕ) where
  IsLastDot-suc :
      (p : ℕ) (d : Option ℕ)
      → IsLastDot uri lo p d
      → (uri p ≡ b'.' → Parameter uri lo p)
      → IsLastDot uri lo (suc p) d
  IsLastDot-suc p none k here = λ i l h e. elim (Bool-cases (i == p)) [
    | inl t ↦ let same : i ≡ p = ground arith in rw same (here (rw same at e))
    | inr t ↦ k i l (ground arith) e
  ]
  IsLastDot-suc p (some d) (l, h, e, q, k) here = (
    l,
    omega arith,
    e,
    q,
    λ i g g' f. elim (Bool-cases (i == p)) [
      | inl t ↦ let same : i ≡ p = ground arith in rw same (here (rw same at f))
      | inr t ↦ k i g (ground arith) f
    ],
  )

  -- The byte at `p` is not taken for a dot.
  see_question :
      (p : ℕ) (d q : Option ℕ)
      → lo ≤ p
      → IsMarked uri lo p (marks d q)
      → (uri p ≡ b'.' → Parameter uri lo p)
      → IsMarked uri lo (suc p) (if uri p == b'?' then marks d (some p) else marks d q)
  see_question p d q l k here = elim (Bool-cases (uri p == b'?')) [
    | inl e ↦ rw e (record {
      question_last = (l, omega arith, (==_iff (uri p) b'?').0 e, λ i g h f. omega arith);
      dot_last = IsLastDot-suc p d k.dot_last here;
    })
    | inr e ↦ rw e (record {
      question_last = IsLast-suc uri b'?' lo p q (λ f. ground arith) k.question_last;
      dot_last = IsLastDot-suc p d k.dot_last here;
    })
  ]

  see_byte-IsMarked :
      (p : ℕ) (d q : Option ℕ)
      → lo ≤ p
      → IsMarked uri lo p (marks d q)
      → IsMarked uri lo (suc p) (see_byte (uri p) p (marks d q))
  unfolding see_byte
  see_byte-IsMarked p d none l k = elim (Bool-cases (uri p == b'.')) [
    | inl e ↦ rw e (record {
      question_last = IsLast-suc uri b'?' lo p none (λ f. ground arith) k.question_last;
      dot_last = (
        l,
        omega arith,
        (==_iff (uri p) b'.').0 e,
        k.question_last,
        λ i g h f. absurd (omega arith),
      );
    })
    | inr e ↦ rw e (see_question p d none l k (λ f. absurd (ground arith)))
  ]
  see_byte-IsMarked p d (some q) l k =
      let (g, h, e, _) = k.question_last in
      let before : uri p ≡ b'.' → Parameter uri lo p = λ f. (q, g, h, e) in
      elim (Bool-cases (uri p == b'.')) [
        | inl f ↦ rw f (see_question p d (some q) l k before)
        | inr f ↦ rw f (see_question p d (some q) l k before)
      ]

  find_marks-IsMarked :
      (n p e : ℕ) (m : Marks)
      → lo ≤ p
      → p + n ≡ e
      → IsMarked uri lo p m
      → IsMarked uri lo e (find_marks uri n p m)
  unfolding find_marks
  find_marks-IsMarked zero p e m l h k =
      let same : p ≡ e = omega arith in subst (λ x. IsMarked uri lo x m) same k
  find_marks-IsMarked (suc n) p e m l h k =
      find_marks-IsMarked n (suc p) e (see_byte (uri p) p m) (omega arith) (omega arith)
        (see_byte-IsMarked p m.p_dot m.p_question_mark l k)

  -- What the second loop finds behind `lo`.
  pub find_marks_from-IsMarked :
      (n : ℕ) → lo ≤ n → IsMarked uri lo n (find_marks uri (n - lo) lo (marks none none))
  find_marks_from-IsMarked n h =
      find_marks-IsMarked (n - lo) lo n (marks none none) (omega arith) (omega arith) (record {
        question_last = λ i l g e. omega arith;
        dot_last = λ i l g e. absurd (omega arith);
      })
