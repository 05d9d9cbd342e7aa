-- ===== src/Server/HashTable.antt =====
-- The tables of nodes by a text: src/VirtualHostHash.c, src/RedirectDomain.c and src/MimeTypeHash.c,
-- which differ in their nodes, and CalcHash of src/Util.c.
pub mod Lookup
pub mod Examples
use hetao.Base.{
  ℕ, zero, suc, ◌+◌, ◌-◌, ◌*◌, ◌/◌, ◌%◌, ◌^◌, Bool, true, false, ◌&&◌, Option, none, some, List, [],
  ◌∷◌, ltb, ◌==◌, if◌then◌else◌,
}

-- A `char` is signed: as an `unsigned long` of 64 bits.
abbrev pub char_value : ℕ → ℕ
char_value c = if ltb c 128 then c else 2 ^ 64 - 256 + c

-- A round of CalcHash: `ul = (*p) + (ul<<6) + (ul>>16) - ul`.
abbrev pub hash_byte : ℕ → ℕ → ℕ
hash_byte ul c = (char_value c + ul * 64 + ul / 2 ^ 16 + (2 ^ 64 - ul)) % 2 ^ 64

unfoldable pub hash_from : ℕ → List ℕ → ℕ
hash_from ul [] = ul
hash_from ul (c ∷ cs) = hash_from (hash_byte ul c) cs

unfoldable pub calc_hash : List ℕ → ℕ
unfolding hash_from
calc_hash text = hash_from 0 text

-- The comparisons of whole texts, which have no NUL inside.
unfoldable pub same_text : List ℕ → List ℕ → Bool
same_text [] [] = true
same_text (c ∷ cs) (d ∷ ds) = (c == d) && same_text cs ds
same_text _ _ = false

-- The chains by their index.
abbrev pub Chains {ℓ} : Type ℓ → Type ℓ
Chains A = ℕ → List A

-- What a push returns: 0 and the table, 1 for a text that is there, or the division by a size of 0.
pub data Pushed {ℓ} (A : Type ℓ) : Type ℓ where
  pushed : Chains A → Pushed A
  is_there : Pushed A
  no_chains : Pushed A

module _ {ℓ} {A : Type ℓ} (name : A → List ℕ) where
  -- The walk along a chain: the first node of this name.
  unfoldable pub find_node : List ℕ → List A → Option A
  find_node text [] = none
  find_node text (x ∷ xs) =
      let later = find_node text xs in if same_text (name x) text then some x else later

  abbrev pub push_front : ℕ → A → Chains A → Option A → Pushed A
  push_front index x t (some y) = is_there
  push_front index x t none = pushed (λ i. if i == index then x ∷ t i else t i)

  unfoldable pub push_node : ℕ → Chains A → A → Pushed A
  push_node zero t x = no_chains
  push_node (suc n) t x =
      let index = calc_hash (name x) % suc n in push_front index x t (find_node (name x) (t index))

  -- Outside: none is the division by a size of 0. Inside: none is NULL.
  unfoldable pub query_node : ℕ → Chains A → List ℕ → Option (Option A)
  query_node zero t text = none
  query_node (suc n) t text = some (find_node text (t (calc_hash text % suc n)))

pub record VirtualHost : Type 0 where
  pub domain : List ℕ

pub record RedirectDomain : Type 0 where
  pub domain : List ℕ
  pub new_domain : List ℕ

pub record MimeType : Type 0 where
  pub type : List ℕ
  pub mime : List ℕ
  pub compress_enable : Bool

unfoldable pub push_virtual_host_hash_node :
    ℕ → Chains VirtualHost → VirtualHost → Pushed VirtualHost
unfolding push_node
push_virtual_host_hash_node = push_node (λ h. h.domain)

unfoldable pub query_virtual_host_hash_node :
    ℕ → Chains VirtualHost → List ℕ → Option (Option VirtualHost)
unfolding query_node
query_virtual_host_hash_node = query_node (λ h. h.domain)

unfoldable pub push_redirect_domain_hash_node :
    ℕ → Chains RedirectDomain → RedirectDomain → Pushed RedirectDomain
unfolding push_node
push_redirect_domain_hash_node = push_node (λ r. r.domain)

unfoldable pub query_redirect_domain_hash_node :
    ℕ → Chains RedirectDomain → List ℕ → Option (Option RedirectDomain)
unfolding query_node
query_redirect_domain_hash_node = query_node (λ r. r.domain)

unfoldable pub push_mime_type_hash_node : ℕ → Chains MimeType → MimeType → Pushed MimeType
unfolding push_node
push_mime_type_hash_node = push_node (λ m. m.type)

unfoldable pub query_mime_type_hash_node : ℕ → Chains MimeType → List ℕ → Option (Option MimeType)
unfolding query_node
query_mime_type_hash_node = query_node (λ m. m.type)
