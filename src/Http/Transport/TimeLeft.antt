-- ===== src/Http/Transport/TimeLeft.antt =====
-- What `AjustTimeval` of src/fasterhttp.c leaves of a time limit.
use hetao.Base.{
  ℕ, zero, suc, ◌+◌, ◌-◌, ◌*◌, ◌≤◌, ◌<◌, ◌≡◌, refl, ap, ◌∙◌, inl, inr, arith, leb, leb→le, leb→gt,
  le→leb, gt→leb, Bool-cases,
}
use hetao.Base.Int.{ℤ, pos, negsuc, neg_part, sub_ℕ, ◌+ℤ◌, sub_ℤ}
use hetao.Http.Environment.{Timeval}
use hetao.Http.Transport.{carry_seconds, at_least_zero, settle, adjust_timeval}

abbrev million : ℕ
million = 1000000

abbrev pub time_of : ℕ → ℕ → Timeval
time_of sec usec = record { tv_sec = pos sec; tv_usec = pos usec }

abbrev pub in_microseconds : ℕ → ℕ → ℕ
in_microseconds sec usec = sec * million + usec

sub_ℕ-ge : (a b : ℕ) → b ≤ a → sub_ℕ a b ≡ pos (a - b)
sub_ℕ-ge a b l = rw (le→leb b a l)

sub_ℕ-lt : (a b : ℕ) → a < b → sub_ℕ a b ≡ negsuc (b - a - 1)
sub_ℕ-lt a b l = rw (gt→leb b a l)

sub_ℤ-ge : (a b : ℕ) → b ≤ a → sub_ℤ (pos a) (pos b) ≡ pos (a - b)
sub_ℤ-ge a b l = ground (arith, sub_ℕ-ge a b l)

sub_ℤ-lt : (a b : ℕ) → a < b → sub_ℤ (pos a) (pos b) ≡ negsuc (b - a - 1)
sub_ℤ-lt a b l = ground (arith, sub_ℕ-lt a b l)

sub_ℤ-negsuc : (a b : ℕ) → sub_ℤ (pos a) (negsuc b) ≡ pos (a + suc b)
sub_ℤ-negsuc a b = ground arith

-- The whole seconds and the microseconds that pass are taken off, and a second is borrowed where
-- the microseconds are below zero.
abbrev pub after_carry : ℤ → ℤ → Timeval
after_carry sec (pos usec) = at_least_zero (record { tv_sec = sec; tv_usec = pos usec })
after_carry sec (negsuc n) =
    at_least_zero (record { tv_sec = sec +ℤ negsuc 0; tv_usec = pos (million - suc n) })

carry_seconds-pos :
    (k : ℕ) (sec : ℤ) (n : ℕ)
    → carry_seconds k (record { tv_sec = sec; tv_usec = pos n })
      ≡ record { tv_sec = sec; tv_usec = pos n }
unfolding carry_seconds
carry_seconds-pos zero sec n = refl
carry_seconds-pos (suc k) sec n = refl

carry_seconds-negsuc :
    (k : ℕ) (sec : ℤ) (n : ℕ)
    → n < million
    → carry_seconds (suc k) (record { tv_sec = sec; tv_usec = negsuc n })
      ≡ record { tv_sec = sec +ℤ negsuc 0; tv_usec = pos (million - suc n) }
unfolding carry_seconds
carry_seconds-negsuc k sec n l =
    let carried : negsuc n +ℤ pos 1000000 ≡ pos (million - suc n) =
      unfold ◌+ℤ◌ in ground (arith, sub_ℕ-ge 1000000 (suc n) l) in
    rw (gt→leb (suc n) 0 (omega arith), carried)
      (carry_seconds-pos k (sec +ℤ negsuc 0) (million - suc n))

settle-after_carry :
    (d e : ℤ) → neg_part e ≤ million → settle (record { tv_sec = d; tv_usec = e }) ≡ after_carry d e
settle-after_carry d (pos n) l = ap at_least_zero (carry_seconds-pos 0 d n)
settle-after_carry d (negsuc n) l = ap at_least_zero (carry_seconds-negsuc n d n l)

adjusted :
    (t t1 t2 : Timeval) {d e : ℤ}
    → sub_ℤ t.tv_sec (sub_ℤ t2.tv_sec t1.tv_sec) ≡ d
    → sub_ℤ t.tv_usec (sub_ℤ t2.tv_usec t1.tv_usec) ≡ e
    → neg_part e ≤ million
    → adjust_timeval t t1 t2 ≡ after_carry d e
unfolding adjust_timeval
adjusted t t1 t2 {d} {e} p q l =
    ap
      (λ x. settle (record { tv_sec = x; tv_usec = sub_ℤ t.tv_usec (sub_ℤ t2.tv_usec t1.tv_usec) }))
      p
    ∙ ap (λ x. settle (record { tv_sec = d; tv_usec = x })) q
    ∙ settle-after_carry d e l

borrowed :
    (sec n : ℕ) → 0 < sec → after_carry (pos sec) (negsuc n) ≡ time_of (sec - 1) (million - suc n)
borrowed sec n l =
    ap (λ x. at_least_zero (record { tv_sec = x; tv_usec = pos (million - suc n) }))
      (let z : pos sec +ℤ negsuc 0 ≡ pos (sec - 1) =
          unfold ◌+ℤ◌ in ground (arith, sub_ℕ-ge sec 1 l) in
        z)

-- `AjustTimeval` with the times of two readings of a clock, of which the second is not earlier and
-- both have less than a million microseconds: where the limit reaches, and has as many whole
-- seconds as are between the seconds of the readings, exactly the time that passed is taken off.
pub adjust_timeval-Adjusts :
    (sec usec sec1 usec1 sec2 usec2 : ℕ)
    → usec1 < million
    → usec2 < million
    → sec1 ≤ sec2
    → sec2 - sec1 ≤ sec
    → in_microseconds sec1 usec1 ≤ in_microseconds sec2 usec2
    → in_microseconds sec2 usec2 - in_microseconds sec1 usec1 ≤ in_microseconds sec usec
    → (sec' : ℕ) × (usec' : ℕ) × (adjust_timeval
          (time_of sec usec)
          (time_of sec1 usec1)
          (time_of sec2 usec2)
        ≡ time_of sec' usec')
      × (in_microseconds sec' usec' + (in_microseconds sec2 usec2 - in_microseconds sec1 usec1)
          ≡ in_microseconds sec usec)
adjust_timeval-Adjusts sec usec sec1 usec1 sec2 usec2 l1 l2 le1 le2 le3 le4 =
    let t = time_of sec usec in
    let t1 = time_of sec1 usec1 in
    let t2 = time_of sec2 usec2 in
    let left = sec - (sec2 - sec1) in
    let p : sub_ℤ (pos sec) (sub_ℤ (pos sec2) (pos sec1)) ≡ pos left =
      ap (sub_ℤ (pos sec)) (sub_ℤ-ge sec2 sec1 le1) ∙ sub_ℤ-ge sec (sec2 - sec1) le2 in
    elim (Bool-cases (leb usec1 usec2)) [
      | inr back ↦ (
        left,
        _,
        adjusted t t1 t2 p
            (ap (sub_ℤ (pos usec)) (sub_ℤ-lt usec2 usec1 (leb→gt _ _ back)) ∙ sub_ℤ-negsuc usec _)
            (omega arith),
        omega (arith, leb→gt _ _ back),
      )
      | inl on ↦
          let passed : sub_ℤ (pos usec2) (pos usec1) ≡ pos (usec2 - usec1) =
            sub_ℤ-ge usec2 usec1 (leb→le _ _ on) in
          elim (Bool-cases (leb (usec2 - usec1) usec)) [
            | inl enough ↦ (
              left,
              _,
              adjusted t t1 t2 p
                  (ap (sub_ℤ (pos usec)) passed ∙ sub_ℤ-ge usec (usec2 - usec1) (leb→le _ _ enough))
                  (omega arith),
              omega (arith, leb→le _ _ enough, leb→le _ _ on),
            )
            | inr short ↦
                let short' : usec < usec2 - usec1 = leb→gt _ _ short in
                (
                  left - 1,
                  _,
                  adjusted t t1 t2 p
                        (ap (sub_ℤ (pos usec)) passed ∙ sub_ℤ-lt usec (usec2 - usec1) short')
                        (omega arith)
                      ∙ borrowed left _ (omega (arith, leb→le _ _ on)),
                  omega (arith, leb→le _ _ on),
                )
          ]
    ]
