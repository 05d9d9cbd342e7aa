-- ===== src/Server/HashTable/Lookup.antt =====
-- What the tables of src/VirtualHostHash.c, src/RedirectDomain.c and src/MimeTypeHash.c find.
use hetao.Base.{
  ℕ, suc, ◌%◌, ◌≡◌, refl, sym, ap, ◌∙◌, ◌≢◌, inl, inr, Bool, true, ◌&&◌, Option, none, some, List,
  [], ◌∷◌, arith, ◌==◌, if◌then◌else◌, ==_iff, Bool-cases,
}
use hetao.Server.HashTable.{
  calc_hash, same_text, Chains, Pushed, pushed, is_there, no_chains, find_node, push_front,
  push_node, query_node,
}

and_true : (a b : Bool) → (a && b) ≡ true → (a ≡ true) × (b ≡ true)
and_true a b e = ground arith

same_text_eq : (a b : List ℕ) → same_text a b ≡ true → a ≡ b
unfolding same_text
same_text_eq [] [] e = refl
same_text_eq [] (d ∷ ds) e = ground arith
same_text_eq (c ∷ cs) [] e = ground arith
same_text_eq (c ∷ cs) (d ∷ ds) e =
    let (h, k) = and_true (c == d) (same_text cs ds) e in
    let same : c ≡ d = (==_iff c d).0 h in rw same (ap (◌∷◌ d) (same_text_eq cs ds k))

same_text_refl : (a : List ℕ) → same_text a a ≡ true
unfolding same_text
same_text_refl [] = refl
same_text_refl (c ∷ cs) =
    let here : (c == c) ≡ true = (==_iff c c).1 refl in rw (here, same_text_refl cs) refl

module _ {A : Type 0} (name : A → List ℕ) where
  find_node-front : (x : A) (xs : List A) → find_node name (name x) (x ∷ xs) ≡ some x
  unfolding find_node
  find_node-front x xs = rw (same_text_refl (name x)) refl

  find_node-behind :
      (x : A) (xs : List A) (text : List ℕ)
      → text ≢ name x
      → find_node name text (x ∷ xs) ≡ find_node name text xs
  unfolding find_node
  find_node-behind x xs text h = elim (Bool-cases (same_text (name x) text)) [
    | inl e ↦ absurd (h (sym (same_text_eq (name x) text e)))
    | inr e ↦ rw e refl
  ]

  module _ (n : ℕ) (t : Chains A) where
    -- A push adds its node to what queries find: under its name, and nothing else changes; it is
    -- refused, and the table left alone, exactly where the name is found already.
    abbrev pub Pushes : A → Pushed A → Type 0
    Pushes x (pushed u) =
        (query_node name (suc n) t (name x) ≡ some none)
        × (query_node name (suc n) u (name x) ≡ some (some x))
        × ((text : List ℕ)
            → text ≢ name x
            → query_node name (suc n) u text ≡ query_node name (suc n) t text)
    Pushes x is_there = (y : A) × (query_node name (suc n) t (name x) ≡ some (some y))
    Pushes x no_chains = ⊥

    query_node-find :
        (u : Chains A) (text : List ℕ)
        → query_node name (suc n) u text ≡ some (find_node name text (u (calc_hash text % suc n)))
    unfolding query_node
    query_node-find u text = refl

    push_front-Pushes :
        (x : A) (o : Option A)
        → query_node name (suc n) t (name x) ≡ some o
        → Pushes x (push_front name (calc_hash (name x) % suc n) x t o)
    push_front-Pushes x (some y) e = (y, e)
    push_front-Pushes x none e =
        let index = calc_hash (name x) % suc n in
        let u = λ (i : ℕ). if i == index then x ∷ t i else t i in
        let here : (index == index) ≡ true = (==_iff index index).1 refl in
        (
          e,
          query_node-find u (name x) ∙ ap some (rw here (find_node-front x (t index))),
          λ text h.
              query_node-find u text
              ∙ (ap some (elim (Bool-cases (calc_hash text % suc n == index)) [
                | inl e ↦ rw e (find_node-behind x (t (calc_hash text % suc n)) text h)
                | inr e ↦ rw e refl
              ])
                  ∙ sym (query_node-find t text)),
        )

    pub push_node-Pushes : (x : A) → Pushes x (push_node name (suc n) t x)
    unfolding push_node
    push_node-Pushes x = push_front-Pushes x _ (query_node-find t (name x))
