-- ===== src/Server/IpLimits.antt =====
-- src/IpLimitsHash.c: how many connections each address has, in a hash table of chains.
pub mod Counts
pub mod Examples
pub mod Leaving
use hetao.Base.{
  ℕ, ◌+◌, ◌-◌, ◌%◌, ◌^◌, Bool, true, false, Option, none, some, List, [], ◌∷◌, leb, ◌==◌,
  if◌then◌else◌,
}
use hetao.Base.Int.{ℤ, pos, ltb_ℤ}
use mathlib.Core.Option

pub record IpLimits : Type 0 where
  pub ip : ℕ
  pub count : ℕ

abbrev pub hash_size : ℕ
hash_size = 2 ^ 16

-- The chains by their index; `hlist_add_head` puts a node in front.
abbrev pub Table : Type 0
Table = ℕ → List IpLimits

abbrev pub ip_limits : ℕ → ℕ → IpLimits
ip_limits ip count = record { ip = ip; count = count }

unfoldable pub init_ip_limits_hash : Table
init_ip_limits_hash index = []

abbrev pub put_chain : Table → ℕ → List IpLimits → Table
put_chain t index chain i = if i == index then chain else t i

abbrev pub keep_front : IpLimits → Option (List IpLimits × Bool) → Option (List IpLimits × Bool)
keep_front x none = none
keep_front x (some (xs, refused)) = some (x ∷ xs, refused)

-- The walk of IncreaseIpLimitsHashNode: `none` if no node has the address; else the chain, and
-- whether the limit refuses the connection. `limit` is `limits__max_connections_per_ip`.
unfoldable pub increase_in : ℤ → ℕ → List IpLimits → Option (List IpLimits × Bool)
increase_in limit ip [] = none
increase_in limit ip (x ∷ xs) =
    if x.ip == ip
    then if ltb_ℤ limit (pos (x.count + 1))
      then some (x ∷ xs, true)
      else some (ip_limits x.ip (x.count + 1) ∷ xs, false)
    else keep_front x (increase_in limit ip xs)

-- IncreaseIpLimitsHashNode returns 0, 1 at the limit, -1 where `malloc` fails.
pub data Increase : Type 0 where
  increased at_limit no_memory : Increase

abbrev pub increase_result : Bool → Table → ℕ → ℕ → Option (List IpLimits × Bool) → Table × Increase
increase_result malloc_succeeds t index ip none =
    if malloc_succeeds
    then (put_chain t index (ip_limits ip 1 ∷ t index), increased)
    else (t, no_memory)
increase_result malloc_succeeds t index ip (some (chain, refused)) =
    (put_chain t index chain, if refused then at_limit else increased)

unfoldable pub increase_ip_limits_hash_node : Bool → ℤ → Table → ℕ → Table × Increase
increase_ip_limits_hash_node malloc_succeeds limit t ip =
    let index = ip % hash_size in
    increase_result malloc_succeeds t index ip (increase_in limit ip (t index))

-- The walk of DecreaseIpLimitsHashNode: `none` if no node has the address. A count of 0 is freed.
unfoldable pub decrease_in : ℕ → List IpLimits → Option (List IpLimits)
decrease_in ip [] = none
decrease_in ip (x ∷ xs) =
    if x.ip == ip
    then some (if leb x.count 1 then xs else ip_limits x.ip (x.count - 1) ∷ xs)
    else Option.map (◌∷◌ x) (decrease_in ip xs)

abbrev pub decrease_result : Table → ℕ → Option (List IpLimits) → Table × Bool
decrease_result t index none = (t, false)
decrease_result t index (some chain) = (put_chain t index chain, true)

-- `true` stands for the code 0, `false` for 1: no such address.
unfoldable pub decrease_ip_limits_hash_node : Table → ℕ → Table × Bool
decrease_ip_limits_hash_node t ip =
    let index = ip % hash_size in decrease_result t index (decrease_in ip (t index))
