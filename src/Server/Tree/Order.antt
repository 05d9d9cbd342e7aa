-- ===== src/Server/Tree/Order.antt =====
-- The trees of sessions (src/HttpSessionTimeoutTree.c, src/HttpSessionElapseTree.c) as sorted lists.
use hetao.Base.{
  ◌≡◌, refl, sym, ap, ◌∙◌, inl, inr, true, false, List, [], ◌∷◌, ◌++◌, arith, if◌then◌else◌,
  Bool-cases,
}
use hetao.Base.Int.{ℤ, ◌≤ℤ◌, ltb_ℤ}
use hetao.Server.Tree.{Tree, leaf, node, inorder, link_node}

module _ {ℓ} {A : Type ℓ} (time : A → ℤ) where
  -- The reference: a list with `x` in front of the first element whose time is not before its own.
  unfoldable pub insert_sorted : A → List A → List A
  insert_sorted x [] = x ∷ []
  insert_sorted x (y ∷ ys) =
      let later = insert_sorted x ys in if ltb_ℤ (time y) (time x) then y ∷ later else x ∷ y ∷ ys

  -- Every time is at least, at most `a`.
  abbrev pub NoneBefore : ℤ → List A → Type 0
  NoneBefore a [] = Unit {0}
  NoneBefore a (x ∷ xs) = (a ≤ℤ time x) × NoneBefore a xs

  abbrev pub IsSorted : List A → Type 0
  IsSorted [] = Unit {0}
  IsSorted (x ∷ xs) = NoneBefore (time x) xs × IsSorted xs

  NoneBefore-middle : (a : ℤ) (y : A) (xs ys : List A) → NoneBefore a (xs ++ y ∷ ys) → a ≤ℤ time y
  NoneBefore-middle a y [] ys h = h.0
  NoneBefore-middle a y (x ∷ xs) ys h = NoneBefore-middle a y xs ys h.1

  insert_sorted-left :
      (x y : A) (xs ys : List A)
      → ltb_ℤ (time y) (time x) ≡ false
      → insert_sorted x (xs ++ y ∷ ys) ≡ insert_sorted x xs ++ y ∷ ys
  unfolding insert_sorted
  insert_sorted-left x y [] ys h = rw h refl
  insert_sorted-left x y (a ∷ xs) ys h = elim (Bool-cases (ltb_ℤ (time a) (time x))) [
    | inl e ↦ rw e (ap (◌∷◌ a) (insert_sorted-left x y xs ys h))
    | inr e ↦ rw e refl
  ]

  insert_sorted-right :
      (x y : A) (xs ys : List A)
      → ltb_ℤ (time y) (time x) ≡ true
      → IsSorted (xs ++ y ∷ ys)
      → insert_sorted x (xs ++ y ∷ ys) ≡ xs ++ y ∷ insert_sorted x ys
  unfolding insert_sorted
  insert_sorted-right x y [] ys h s = rw h refl
  insert_sorted-right x y (a ∷ xs) ys h s =
      let before : ltb_ℤ (time a) (time x) ≡ true =
        ground (arith, NoneBefore-middle (time a) y xs ys s.0) in
      rw before (ap (◌∷◌ a) (insert_sorted-right x y xs ys h s.1))

  NoneBefore-append : (a : ℤ) (xs ys : List A) → NoneBefore a (xs ++ ys) → NoneBefore a xs
  NoneBefore-append a [] ys h = tt
  NoneBefore-append a (x ∷ xs) ys h = (h.0, NoneBefore-append a xs ys h.1)

  IsSorted-append : (xs ys : List A) → IsSorted (xs ++ ys) → IsSorted xs × IsSorted ys
  IsSorted-append [] ys s = (tt, s)
  IsSorted-append (x ∷ xs) ys s =
      let (l, r) = IsSorted-append xs ys s.1 in ((NoneBefore-append (time x) xs ys s.0, l), r)

  insert_sorted-empty : (x : A) → x ∷ [] ≡ insert_sorted x []
  unfolding insert_sorted
  insert_sorted-empty x = refl

  -- The descent finds the place that the reference finds.
  pub link_node-insert_sorted :
      (x : A) (t : Tree A)
      → IsSorted (inorder t)
      → inorder (link_node time x t) ≡ insert_sorted x (inorder t)
  unfolding link_node inorder
  link_node-insert_sorted x leaf s = insert_sorted-empty x
  link_node-insert_sorted x (node l y r) s =
      let (sl, sr) = IsSorted-append (inorder l) (y ∷ inorder r) s in
      let to_left = λ (h : ltb_ℤ (time y) (time x) ≡ false).
        ap (λ z. z ++ y ∷ inorder r) (link_node-insert_sorted x l sl)
        ∙ sym (insert_sorted-left x y (inorder l) (inorder r) h) in
      elim (Bool-cases (ltb_ℤ (time x) (time y))) [
        | inl e ↦ rw e (to_left (ground arith))
        | inr e ↦ elim (Bool-cases (ltb_ℤ (time y) (time x))) [
          | inl e' ↦
              rw (e, e')
                (ap (λ z. inorder l ++ y ∷ z) (link_node-insert_sorted x r sr.1)
                  ∙ sym (insert_sorted-right x y (inorder l) (inorder r) e' s))
          | inr e' ↦ rw (e, e') (to_left e')
        ]
      ]

  NoneBefore-insert_sorted :
      (a : ℤ) (x : A) (xs : List A)
      → a ≤ℤ time x
      → NoneBefore a xs
      → NoneBefore a (insert_sorted x xs)
  unfolding insert_sorted
  NoneBefore-insert_sorted a x [] l h = (l, tt)
  NoneBefore-insert_sorted a x (y ∷ ys) l h = elim (Bool-cases (ltb_ℤ (time y) (time x))) [
    | inl e ↦ rw e (h.0, NoneBefore-insert_sorted a x ys l h.1)
    | inr e ↦ rw e (l, h)
  ]

  NoneBefore-mono : (a b : ℤ) (xs : List A) → a ≤ℤ b → NoneBefore b xs → NoneBefore a xs
  NoneBefore-mono a b [] l h = tt
  NoneBefore-mono a b (x ∷ xs) l h = (omega (arith, l, h.0), NoneBefore-mono a b xs l h.1)

  pub insert_sorted-IsSorted : (x : A) (xs : List A) → IsSorted xs → IsSorted (insert_sorted x xs)
  unfolding insert_sorted
  insert_sorted-IsSorted x [] s = (tt, tt)
  insert_sorted-IsSorted x (y ∷ ys) s = elim (Bool-cases (ltb_ℤ (time y) (time x))) [
    | inl e ↦
        rw e (
          NoneBefore-insert_sorted (time y) x ys (ground arith) s.0,
          insert_sorted-IsSorted x ys s.1,
        )
    | inr e ↦
        let l : time x ≤ℤ time y = ground arith in
        rw e ((l, NoneBefore-mono (time x) (time y) ys l s.0), s)
  ]
