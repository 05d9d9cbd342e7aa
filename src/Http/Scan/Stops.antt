-- ===== src/Http/Scan/Stops.antt =====
-- Where a walk of `ParseHttpBuffer` (src/fasterhttp.c) stops, by the bytes it passes.
use hetao.Base.{
  ℕ, zero, suc, ◌+◌, ◌-◌, ◌≤◌, ◌<◌, ◌≡◌, inl, inr, Bool, true, false, arith, ◌==◌, Bool-cases,
}
use hetao.Http.Scan.{scan, find}
use hetao.Http.Types.{Memory, HttpBuffer}

scan-at :
    (stops : ℕ → Bool) (base : Memory) (n p q : ℕ)
    → p ≤ q
    → q < p + n
    → ((i : ℕ) → p ≤ i → i < q → stops (base i) ≡ false)
    → stops (base q) ≡ true
    → scan stops base n p ≡ q
unfolding scan
scan-at stops base zero p q l h f s = absurd (omega arith)
scan-at stops base (suc n) p q l h f s = elim (Bool-cases (p == q)) [
  | inl e ↦
      let same : p ≡ q = ground arith in
      let here : stops (base p) ≡ true = rw same s in rw here same
  | inr e ↦
      rw (f p (omega arith) (ground arith))
        (scan-at stops base n (suc p) q (ground arith) (omega arith) (λ i g. f i (omega arith)) s)
]

pub find-at :
    (stops : ℕ → Bool) (b : HttpBuffer) (p q : ℕ)
    → p ≤ q
    → q < b.fill_ptr
    → ((i : ℕ) → p ≤ i → i < q → stops (b.base i) ≡ false)
    → stops (b.base q) ≡ true
    → find stops b p ≡ q
unfolding find
find-at stops b p q l h f s = scan-at stops b.base (b.fill_ptr - p) p q l (omega arith) f s
