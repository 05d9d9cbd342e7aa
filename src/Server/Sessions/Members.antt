-- ===== src/Server/Sessions/Members.antt =====
-- Which sessions the trees of the pool hold (src/HttpSession.c).
use hetao.Base.{
  ℕ, suc, ◌≡◌, refl, ap, inl, inr, true, List, [], ◌∷◌, ◌++◌, arith, ◌==◌, Bool-cases, length,
}
use hetao.Base.Int.{ℤ, ltb_ℤ}
use hetao.Server.Sessions.{HetaoEnv}
use hetao.Server.Tree.{Tree, leaf, node, inorder, link_node, HttpSession}
use hetao.Server.Tree.Update.{remove_session}

-- Some session of the list has the address `n`.
abbrev pub Contains : ℕ → List HttpSession → Type 0
Contains n xs = suc (length (remove_session n xs)) ≡ length xs

module _ (n : ℕ) where
  Contains-here :
      (s : HttpSession) (xs : List HttpSession) → (s.session == n) ≡ true → Contains n (s ∷ xs)
  unfolding remove_session
  Contains-here s xs e = rw e refl

  Contains-there : (s : HttpSession) (xs : List HttpSession) → Contains n xs → Contains n (s ∷ xs)
  unfolding remove_session
  Contains-there s xs h = elim (Bool-cases (s.session == n)) [
    | inl e ↦ rw e refl
    | inr e ↦ rw e (ap suc h)
  ]

  Contains-right : (xs ys : List HttpSession) → Contains n ys → Contains n (xs ++ ys)
  Contains-right [] ys h = h
  Contains-right (x ∷ xs) ys h = Contains-there x (xs ++ ys) (Contains-right xs ys h)

  Contains-left : (xs ys : List HttpSession) → Contains n xs → Contains n (xs ++ ys)
  unfolding remove_session
  Contains-left [] ys h = absurd (omega arith)
  Contains-left (x ∷ xs) ys h = elim (Bool-cases (x.session == n)) [
    | inl e ↦ rw e refl
    | inr e ↦
        let h' : suc (suc (length (remove_session n xs))) ≡ suc (length xs) = rw e at h in
        rw e (ap suc (Contains-left xs ys (omega arith)))
  ]

pub Contains-link_node :
    (time : HttpSession → ℤ) (s : HttpSession) (t : Tree HttpSession)
    → Contains s.session (inorder (link_node time s t))
unfolding link_node inorder
Contains-link_node time s leaf = Contains-here s.session s [] (ground arith)
Contains-link_node time s (node l y r) =
    let left =
      Contains-left s.session (inorder (link_node time s l)) (y ∷ inorder r)
        (Contains-link_node time s l) in
    let right =
      Contains-right s.session (inorder l) (y ∷ inorder (link_node time s r))
        (Contains-there s.session y (inorder (link_node time s r)) (Contains-link_node time s r)) in
    elim (Bool-cases (ltb_ℤ (time s) (time y))) [
      | inl e ↦ rw e left
      | inr e ↦ elim (Bool-cases (ltb_ℤ (time y) (time s))) [
        | inl e' ↦ rw (e, e') right
        | inr e' ↦ rw (e, e') left
      ]
    ]

-- A session of both trees.
abbrev pub InTrees : HetaoEnv → HttpSession → Type 0
InTrees v s =
    Contains s.session (inorder v.http_session_timeout_rbtree_used)
    × Contains s.session (inorder v.http_session_elapse_rbtree_used)
