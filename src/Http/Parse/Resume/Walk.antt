-- ===== src/Http/Parse/Resume/Walk.antt =====
-- The walks of `ParseHttpBuffer` (src/fasterhttp.c) over data of which a first piece was there
-- before.
use hetao.Base.{ℕ, zero, suc, ◌+◌, ◌-◌, ◌≤◌, ◌<◌, ◌≡◌, inl, inr, Bool, arith, Bool-cases}
use hetao.Http.Scan.{scan, find}
use hetao.Http.Scan.Walks.{scan_range}
use hetao.Http.Types.{Memory, HttpBuffer}

-- `c` has the data of `b`, and may have more behind it.
pub record Extends (b c : HttpBuffer) : Type 0 where
  pub longer : b.fill_ptr ≤ c.fill_ptr
  pub agrees : (i : ℕ) → i < b.fill_ptr → c.base i ≡ b.base i

scan-same :
    (stops : ℕ → Bool) (base base' : Memory) (n m p : ℕ)
    → n ≤ m
    → ((i : ℕ) → i < p + n → base' i ≡ base i)
    → scan stops base n p < p + n
    → scan stops base' m p ≡ scan stops base n p
unfolding scan
scan-same stops base base' zero m p l same h = absurd (omega arith)
scan-same stops base base' (suc n) zero p l same h = elim l [ ]
scan-same stops base base' (suc n) (suc m) p l same h =
    let here : base' p ≡ base p = same p (omega arith) in
    elim (Bool-cases (stops (base p))) [
      | inl e ↦ rw (here, e)
      | inr e ↦
          let h' : scan stops base n (suc p) < p + suc n = rw e at h in
          rw (here, e)
            (scan-same stops base base' n m (suc p) (omega arith) (λ i k. same i (omega arith))
              (omega arith))
    ]

scan-more :
    (stops : ℕ → Bool) (base base' : Memory) (n m p : ℕ)
    → n ≤ m
    → ((i : ℕ) → i < p + n → base' i ≡ base i)
    → p + n ≤ scan stops base n p
    → scan stops base' m p ≡ scan stops base' (m - n) (p + n)
unfolding scan
scan-more stops base base' zero m p l same h =
    let rest : m - 0 ≡ m = omega arith in let here : p + 0 ≡ p = omega arith in rw (rest, here)
scan-more stops base base' (suc n) zero p l same h = elim l [ ]
scan-more stops base base' (suc n) (suc m) p l same h =
    let here : base' p ≡ base p = same p (omega arith) in
    elim (Bool-cases (stops (base p))) [
      | inl e ↦ let h' : p + suc n ≤ p = rw e at h in absurd (omega arith)
      | inr e ↦
          let h' : p + suc n ≤ scan stops base n (suc p) = rw e at h in
          let rest : suc m - suc n ≡ m - n = omega arith in
          let next : p + suc n ≡ suc p + n = omega arith in
          rw (here, e, rest, next)
            (scan-more stops base base' n m (suc p) (omega arith) (λ i k. same i (omega arith))
              (omega arith))
    ]

module _ (b c : HttpBuffer) (x : Extends b c) (stops : ℕ → Bool) (p : ℕ) where
  pub find-same : find stops b p < b.fill_ptr → find stops c p ≡ find stops b p
  unfolding find
  find-same h =
      let r = scan_range stops b.base (b.fill_ptr - p) p in
      scan-same stops b.base c.base (b.fill_ptr - p) (c.fill_ptr - p) p (omega (arith, x.longer))
        (λ i l. x.agrees i (omega (arith, r))) (omega (arith, r))

  -- Where the walk came to the end of the first piece, it goes on from there.
  pub find-more :
      p ≤ b.fill_ptr → b.fill_ptr ≤ find stops b p → find stops c p ≡ find stops c (find stops b p)
  unfolding find
  find-more l h =
      let r = scan_range stops b.base (b.fill_ptr - p) p in
      let at_end : scan stops b.base (b.fill_ptr - p) p ≡ p + (b.fill_ptr - p) = omega (arith, r) in
      let rest : c.fill_ptr - p - (b.fill_ptr - p) ≡ c.fill_ptr - (p + (b.fill_ptr - p)) =
        omega arith in
      rw (at_end, ← rest)
        (scan-more stops b.base c.base (b.fill_ptr - p) (c.fill_ptr - p) p (omega (arith, x.longer))
          (λ i k. x.agrees i (omega arith)) (omega (arith, at_end)))
