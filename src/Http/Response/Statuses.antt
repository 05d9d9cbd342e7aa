-- ===== src/Http/Response/Statuses.antt =====
-- The table that ResetAllHttpStatus (src/fasterhttp.c) fills and the cases of the switch in
-- FormatHttpResponseStartLine have the same texts.
use hetao.Base.{
  ℕ, ◌≤◌, ◌≡◌, refl, sym, ap, ◌∙◌, inl, inr, Bool, true, false, ◌&&◌, Option, none, some, List, [],
  ◌∷◌, arith, ltb, leb, ◌==◌, if◌then◌else◌, Bool-cases,
}
use hetao.Http.Response.{
  set_statuses, switch_cases, StatusTable, set_http_status, set_all, zero_statuses,
  reset_all_http_status, null_texts, texts_of, get_http_status, find_status, default_status,
  case_of,
}
use hetao.Http.Status.{HttpStatus}

-- Each code is inside the array and occurs once.
abbrev pub is_none {ℓ} : {A : Type ℓ} → Option A → Bool
is_none none = true
is_none (some a) = false

unfoldable pub all_new : List HttpStatus → Bool
all_new [] = true
all_new (x ∷ xs) = is_none (find_status xs x.status) && (leb x.status 505 && all_new xs)

abbrev pub entry : HttpStatus → List ℕ × List ℕ
entry x = (x.status_s, x.status_t)

-- The case's texts, or else what the table had.
abbrev pub entry_or : Option HttpStatus → Option (List ℕ × List ℕ) → Option (List ℕ × List ℕ)
entry_or none old = old
entry_or (some x) old = some (entry x)

and_left : (a b : Bool) → (a && b) ≡ true → a ≡ true
and_left true b h = refl
and_left false b h = h

and_right : (a b : Bool) → (a && b) ≡ true → b ≡ true
and_right true b h = h
and_right false b h = cc h

is_none-eq {ℓ} : {A : Type ℓ} (o : Option A) → is_none o ≡ true → o ≡ none
is_none-eq none h = refl
is_none-eq (some a) h = cc h

set_all-entries :
    (xs : List HttpStatus) (old : StatusTable)
    → all_new xs ≡ true
    → (table : StatusTable) × (set_all old xs ≡ some table)
      × ((n : ℕ) → table n ≡ entry_or (find_status xs n) (old n))
unfolding all_new find_status set_http_status
set_all-entries [] old h = (old, refl, λ n. refl)
set_all-entries (x ∷ xs) old h =
    let fresh : find_status xs x.status ≡ none = is_none-eq _ (and_left _ _ h) in
    let inside : leb x.status 505 ≡ true =
      and_left _ _ (and_right (is_none (find_status xs x.status)) _ h) in
    let more : all_new xs ≡ true =
      and_right (leb x.status 505) _ (and_right (is_none (find_status xs x.status)) _ h) in
    let next : StatusTable = λ n. if n == x.status then some (entry x) else old n in
    let (table, e, entries) = set_all-entries xs next more in
    (
      table,
      rw (let small : ltb 505 x.status ≡ false = ground arith in small) e,
      λ n. elim (Bool-cases (n == x.status)) [
        | inl same ↦
            let absent : find_status xs n ≡ none =
              ap (find_status xs) (let code_eq : n ≡ x.status = ground arith in code_eq) ∙ fresh in
            entries n ∙ ap (λ o. entry_or o (next n)) absent ∙ rw same
        | inr other ↦ entries n ∙ rw other
      ],
    )

set_new : all_new set_statuses ≡ true
unfolding all_new find_status
set_new = refl

-- The two lists of the source have the same codes with the same texts.
same_statuses : (n : ℕ) → find_status set_statuses n ≡ find_status switch_cases n
same_statuses n = refl

null_texts-case :
    (o : Option HttpStatus) → texts_of (entry_or o none) ≡ null_texts → case_of o ≡ default_status
null_texts-case none h = refl
null_texts-case (some x) h = cc h

-- After ResetAllHttpStatus, GetHttpStatus on any code inside the array gives the texts that the
-- switch of FormatHttpResponseStartLine prints in the case of this code, and NULL pointers exactly
-- for the codes that it has no case for, whose status line is that of 500.
pub get_http_status-cases :
    (n : ℕ)
    → n ≤ 505
    → (table : StatusTable) × (reset_all_http_status false zero_statuses ≡ some table)
      × (get_http_status table n ≡ texts_of (entry_or (find_status switch_cases n) none))
      × (get_http_status table n ≡ null_texts
          → case_of (find_status switch_cases n) ≡ default_status)
unfolding reset_all_http_status get_http_status
get_http_status-cases n l =
    let (table, e, entries) = set_all-entries set_statuses zero_statuses set_new in
    let inside : ltb 505 n ≡ false = ground arith in
    let found : get_http_status table n ≡ texts_of (entry_or (find_status switch_cases n) none) =
      rw inside (ap texts_of (entries n ∙ ap (λ o. entry_or o none) (same_statuses n))) in
    (table, e, found, λ h. null_texts-case (find_status switch_cases n) (sym found ∙ h))
