-- ===== src/Server/IpLimits/Leaving.antt =====
-- DecreaseIpLimitsHashNode of src/IpLimitsHash.c, and its balance with IncreaseIpLimitsHashNode.
use hetao.Base.{
  ℕ, ◌+◌, ◌%◌, ◌≡◌, refl, inl, inr, Bool, true, false, Option, none, some, List, [], ◌∷◌, arith,
  leb, ◌==◌, if◌then◌else◌, Bool-cases,
}
use hetao.Base.Int.{ℤ}
use hetao.Server.IpLimits.{
  IpLimits, hash_size, Table, increased, increase_ip_limits_hash_node, decrease_in, decrease_result,
  decrease_ip_limits_hash_node,
}
use hetao.Server.IpLimits.Counts.{
  count_in, connections, IsChain, IsTable, put_chain-IsTable, increase-Increases,
}
use mathlib.Core.Option

abbrev Lowered : ℕ → List IpLimits → Option (List IpLimits) → Type 0
Lowered ip xs none = count_in ip xs ≡ 0
Lowered ip xs (some ys) =
    ((other : ℕ) → count_in other ys + (if ip == other then 1 else 0) ≡ count_in other xs)
    × IsChain ys

keep-Lowered :
    (ip : ℕ) (x : IpLimits) (xs : List IpLimits) (o : Option (List IpLimits))
    → (x.ip == ip) ≡ false
    → IsChain (x ∷ xs)
    → Lowered ip xs o
    → Lowered ip (x ∷ xs) (Option.map (◌∷◌ x) o)
unfolding count_in
keep-Lowered ip x xs none ne c r = ground arith
keep-Lowered ip x xs (some ys) ne c (r, v) =
    (λ other. ground (arith, r other), (c.0, ground (arith, r x.ip), v))

decrease_in-Lowered : (ip : ℕ) (xs : List IpLimits) → IsChain xs → Lowered ip xs (decrease_in ip xs)
unfolding decrease_in count_in
decrease_in-Lowered ip [] c = refl
decrease_in-Lowered ip (x ∷ xs) c = elim (Bool-cases (x.ip == ip)) [
  | inl e ↦ rw e (elim (Bool-cases (leb x.count 1)) [
    | inl f ↦ rw f ((λ other. ground arith), c.2)
    | inr f ↦ rw f ((λ other. ground arith), (ground arith, c.1, c.2))
  ])
  | inr e ↦ rw e (keep-Lowered ip x xs (decrease_in ip xs) e c (decrease_in-Lowered ip xs c.2))
]

-- What a call does to the counts of all addresses.
abbrev pub Decreases : Table → ℕ → Table × Bool → Type 0
Decreases t ip (u, true) =
    (other : ℕ) → connections u other + (if ip == other then 1 else 0) ≡ connections t other
Decreases t ip (u, false) = (u ≡ t) × (connections t ip ≡ 0)

decrease_result-Decreases :
    (t : Table) (ip : ℕ) (o : Option (List IpLimits))
    → IsTable t
    → Lowered ip (t (ip % hash_size)) o
    → Decreases t ip (decrease_result t (ip % hash_size) o)
      × IsTable (decrease_result t (ip % hash_size) o).0
unfolding connections
decrease_result-Decreases t ip none c r = ((refl, r), c)
decrease_result-Decreases t ip (some ys) c (r, v) =
    (λ other. ground (arith, r other), put_chain-IsTable t (ip % hash_size) ys c v)

-- `DecreaseIpLimitsHashNode` on any table whose chains are sound: it lowers the count of a connected
-- address by one and leaves every other count alone; for an address with no connection it returns
-- 1 and changes nothing. The chains stay sound.
pub decrease-Decreases :
    (t : Table) (ip : ℕ)
    → IsTable t
    → Decreases t ip (decrease_ip_limits_hash_node t ip)
      × IsTable (decrease_ip_limits_hash_node t ip).0
unfolding decrease_ip_limits_hash_node
decrease-Decreases t ip c =
    decrease_result-Decreases t ip (decrease_in ip (t (ip % hash_size))) c
      (decrease_in-Lowered ip (t (ip % hash_size)) (c (ip % hash_size)))

pub restored :
    (t u : Table) (ip : ℕ) (r : Table × Bool)
    → ((other : ℕ) → connections u other ≡ connections t other + (if ip == other then 1 else 0))
    → Decreases u ip r
    → (r.1 ≡ true) × ((other : ℕ) → connections r.0 other ≡ connections t other)
restored t u ip (v, true) up down = (refl, λ other. omega (arith, up other, down other))
restored t u ip (v, false) up down = absurd (ground (arith, up ip, down.1))

-- A connection that is admitted and leaves again leaves every count as it was before: the
-- decrease finds the address, with any table whose chains are sound and any limit.
pub decrease-increase :
    (malloc_succeeds : Bool) (limit : ℤ) (t u : Table) (ip : ℕ)
    → IsTable t
    → increase_ip_limits_hash_node malloc_succeeds limit t ip ≡ (u, increased)
    → ((decrease_ip_limits_hash_node u ip).1 ≡ true)
      × ((other : ℕ)
          → connections (decrease_ip_limits_hash_node u ip).0 other ≡ connections t other)
decrease-increase malloc_succeeds limit t u ip c h =
    let (up, sound) = rw h at (increase-Increases malloc_succeeds limit t ip c) in
    restored t u ip (decrease_ip_limits_hash_node u ip) up.0 (decrease-Decreases u ip sound).0
