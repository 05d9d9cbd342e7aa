-- ===== src/Http/Scan/Walks.antt =====
-- Where the walks of `ParseHttpBuffer` (src/fasterhttp.c) end.
use hetao.Base.{ℕ, zero, suc, ◌+◌, ◌-◌, ◌≤◌, ◌<◌, ◌≡◌, inl, inr, Bool, true, arith, Bool-cases}
use hetao.Http.Scan.{scan, find}
use hetao.Http.Types.{Memory, HttpBuffer}

pub scan_range :
    (stops : ℕ → Bool) (base : Memory) (n p : ℕ)
    → (p ≤ scan stops base n p) × (scan stops base n p ≤ p + n)
unfolding scan
scan_range stops base zero p = (omega arith, omega arith)
scan_range stops base (suc n) p = ground (arith, scan_range stops base n (suc p))

pub scan-stops :
    (stops : ℕ → Bool) (base : Memory) (n p : ℕ)
    → scan stops base n p < p + n
    → stops (base (scan stops base n p)) ≡ true
unfolding scan
scan-stops stops base zero p h = absurd (omega arith)
scan-stops stops base (suc n) p h = elim (Bool-cases (stops (base p))) [
  | inl e ↦ rw e e
  | inr e ↦
      let h' : scan stops base n (suc p) < p + suc n = rw e at h in
      rw e (scan-stops stops base n (suc p) (omega arith))
]

-- A walk does not go back, and passes the end of the data only if it starts behind it.
pub find_range :
    (stops : ℕ → Bool) (b : HttpBuffer) (p : ℕ)
    → (p ≤ find stops b p) × (find stops b p ≤ p + (b.fill_ptr - p))
unfolding find
find_range stops b p = scan_range stops b.base (b.fill_ptr - p) p

pub find-stops :
    (stops : ℕ → Bool) (b : HttpBuffer) (p : ℕ)
    → find stops b p < b.fill_ptr
    → stops (b.base (find stops b p)) ≡ true
unfolding find
find-stops stops b p h =
    scan-stops stops b.base (b.fill_ptr - p) p
      (omega (arith, scan_range stops b.base (b.fill_ptr - p) p))
