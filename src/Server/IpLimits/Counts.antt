-- ===== src/Server/IpLimits/Counts.antt =====
-- The table of src/IpLimitsHash.c as a count for each address.
use hetao.Base.{
  ℕ, ◌+◌, ◌%◌, ◌<◌, ◌≡◌, refl, sym, ap, ◌⊎◌, inl, inr, Bool, true, false, Option, none, some, List,
  [], ◌∷◌, arith, ◌==◌, if◌then◌else◌, Bool-cases,
}
use hetao.Base.Int.{ℤ, pos, ltb_ℤ}
use hetao.Server.IpLimits.{
  IpLimits, hash_size, Table, ip_limits, put_chain, keep_front, increase_in, Increase, increased,
  at_limit, no_memory, increase_result, increase_ip_limits_hash_node,
}
use mathlib.Core.Path.{subst}

unfoldable pub count_in : ℕ → List IpLimits → ℕ
count_in ip [] = 0
count_in ip (x ∷ xs) = if x.ip == ip then x.count else count_in ip xs

-- The abstract view: the connections of an address.
unfoldable pub connections : Table → ℕ → ℕ
connections t ip = count_in ip (t (ip % hash_size))

-- No node is left with the count 0, and no address has two nodes.
abbrev pub IsChain : List IpLimits → Type 0
IsChain [] = Unit {0}
IsChain (x ∷ xs) = (0 < x.count) × (count_in x.ip xs ≡ 0) × IsChain xs

abbrev pub IsTable : Table → Type 0
IsTable t = (i : ℕ) → IsChain (t i)

-- Where the walk finds the address: what becomes of every count.
abbrev Raised : ℕ → ℤ → List IpLimits → Option (List IpLimits × Bool) → Type 0
Raised ip limit xs none = count_in ip xs ≡ 0
Raised ip limit xs (some (ys, true)) =
    (ys ≡ xs) × (ltb_ℤ limit (pos (count_in ip xs + 1)) ≡ true) × (0 < count_in ip xs)
Raised ip limit xs (some (ys, false)) =
    (ltb_ℤ limit (pos (count_in ip xs + 1)) ≡ false)
    × ((other : ℕ) → count_in other ys ≡ count_in other xs + (if ip == other then 1 else 0))
    × (0 < count_in ip xs)
    × IsChain ys

keep_front-Raised :
    (ip : ℕ) (limit : ℤ) (x : IpLimits) (xs : List IpLimits) (o : Option (List IpLimits × Bool))
    → (x.ip == ip) ≡ false
    → IsChain (x ∷ xs)
    → Raised ip limit xs o
    → Raised ip limit (x ∷ xs) (keep_front x o)
unfolding count_in
keep_front-Raised ip limit x xs none ne c r = ground arith
keep_front-Raised ip limit x xs (some (ys, true)) ne c (r, s, t) =
    (ap (◌∷◌ x) r, ground arith, ground arith)
keep_front-Raised ip limit x xs (some (ys, false)) ne c (r, s, t, u) =
    (ground arith, λ other. ground (arith, s other), ground arith, (c.0, ground (arith, s x.ip), u))

hit-Raised :
    (ip : ℕ) (limit : ℤ) (x : IpLimits) (xs : List IpLimits) (over : Bool)
    → ltb_ℤ limit (pos (x.count + 1)) ≡ over
    → (x.ip == ip) ≡ true
    → IsChain (x ∷ xs)
    → Raised ip limit
        (x ∷ xs)
        (if over then some (x ∷ xs, true) else some (ip_limits x.ip (x.count + 1) ∷ xs, false))
unfolding count_in
hit-Raised ip limit x xs true e h c = (refl, rw h e, rw h c.0)
hit-Raised ip limit x xs false e h c =
    (rw h e, λ other. ground arith, rw h c.0, (omega arith, c.1, c.2))

increase_in-Raised :
    (ip : ℕ) (limit : ℤ) (xs : List IpLimits)
    → IsChain xs
    → Raised ip limit xs (increase_in limit ip xs)
unfolding increase_in
increase_in-Raised ip limit [] c = unfold count_in in refl
increase_in-Raised ip limit (x ∷ xs) c = elim (Bool-cases (x.ip == ip)) [
  | inl e ↦ rw e (hit-Raised ip limit x xs (ltb_ℤ limit (pos (x.count + 1))) refl e c)
  | inr e ↦ rw e (
      keep_front-Raised ip limit x xs (increase_in limit ip xs) e c
        (increase_in-Raised ip limit xs c.2))
]

-- What a call does to the counts of all addresses.
abbrev pub Increases : Table → ℕ → ℤ → Table × Increase → Type 0
Increases t ip limit (u, increased) =
    ((other : ℕ) → connections u other ≡ connections t other + (if ip == other then 1 else 0))
    × ((connections t ip ≡ 0) ⊎ (ltb_ℤ limit (pos (connections t ip + 1)) ≡ false))
Increases t ip limit (u, at_limit) =
    ((other : ℕ) → connections u other ≡ connections t other)
    × (0 < connections t ip)
    × (ltb_ℤ limit (pos (connections t ip + 1)) ≡ true)
Increases t ip limit (u, no_memory) = (u ≡ t) × (connections t ip ≡ 0)

pub put_chain-connections :
    (t : Table) (ip other : ℕ) (chain : List IpLimits)
    → connections (put_chain t (ip % hash_size) chain) other
      ≡ (if other % hash_size == ip % hash_size then count_in other chain else connections t other)
unfolding connections
put_chain-connections t ip other chain = ground arith

pub put_chain-IsTable :
    (t : Table) (index : ℕ) (chain : List IpLimits)
    → IsTable t
    → IsChain chain
    → IsTable (put_chain t index chain)
put_chain-IsTable t index chain c h i = elim (Bool-cases (i == index)) [
  | inl e ↦ rw e h
  | inr e ↦ rw e (c i)
]

increase_result-Increases :
    (m : Bool) (limit : ℤ) (t : Table) (ip : ℕ) (o : Option (List IpLimits × Bool))
    → IsTable t
    → Raised ip limit (t (ip % hash_size)) o
    → Increases t ip limit (increase_result m t (ip % hash_size) ip o)
      × IsTable (increase_result m t (ip % hash_size) ip o).0
unfolding connections count_in
increase_result-Increases true limit t ip none c r = (
  (λ other. ground (arith), inl r),
  λ i. put_chain-IsTable t (ip % hash_size) _ c (omega arith, r, c (ip % hash_size)) i,
)
increase_result-Increases false limit t ip none c r = ((refl, r), c)
increase_result-Increases m limit t ip (some (ys, true)) c (r, s, u) = (
  (λ other. ground (arith, ap (count_in other) r), u, s),
  λ i. put_chain-IsTable t (ip % hash_size) ys c (subst IsChain (sym r) (c (ip % hash_size))) i,
)
increase_result-Increases m limit t ip (some (ys, false)) c (r, s, u, v) =
    ((λ other. ground (arith, s other), inr r), λ i. put_chain-IsTable t (ip % hash_size) ys c v i)

-- `IncreaseIpLimitsHashNode` on any table whose chains are sound: a connection admitted raises the
-- count of its address by one and of no other; at the limit, and where no memory is left, no count
-- changes. It is refused exactly where the address has connections already and one more would
-- exceed the limit. The chains stay sound.
pub increase-Increases :
    (malloc_succeeds : Bool) (limit : ℤ) (t : Table) (ip : ℕ)
    → IsTable t
    → Increases t ip limit (increase_ip_limits_hash_node malloc_succeeds limit t ip)
      × IsTable (increase_ip_limits_hash_node malloc_succeeds limit t ip).0
unfolding increase_ip_limits_hash_node
increase-Increases malloc_succeeds limit t ip c =
    increase_result-Increases malloc_succeeds limit t ip (increase_in limit ip (t (ip % hash_size)))
      c (increase_in-Raised ip limit (t (ip % hash_size)) (c (ip % hash_size)))
