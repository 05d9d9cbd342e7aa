-- ===== src/Server/Tree/Update.antt =====
-- Adding a session to a tree and moving it to another time (src/HttpSessionTimeoutTree.c,
-- src/HttpSessionElapseTree.c).
use hetao.Base.{
  ℕ, ◌≡◌, refl, sym, ap, ◌∙◌, inl, inr, List, [], ◌∷◌, ◌==◌, if◌then◌else◌, Bool-cases,
}
use hetao.Base.Int.{ℤ}
use hetao.Server.Tree.{
  Tree, inorder, link_node, HttpSession, add_tree_node, update_timeout_tree_node,
  update_elapse_tree_node,
}
use hetao.Server.Tree.Order.{
  insert_sorted, NoneBefore, IsSorted, link_node-insert_sorted, insert_sorted-IsSorted,
}
use mathlib.Core.Path.{subst}

-- The list without the first occurrence of a session.
unfoldable pub remove_session : ℕ → List HttpSession → List HttpSession
remove_session n [] = []
remove_session n (s ∷ rest) =
    let others = s ∷ remove_session n rest in if s.session == n then rest else others

-- What the kernel's trees promise: rebalancing keeps the order, and erasing takes one node out.
abbrev pub KeepsOrder : (HttpSession → Tree HttpSession → Tree HttpSession) → Type 0
KeepsOrder rb_insert_color =
    (s : HttpSession) (t : Tree HttpSession) → inorder (rb_insert_color s t) ≡ inorder t

abbrev pub Erases : (HttpSession → Tree HttpSession → Tree HttpSession) → Type 0
Erases rb_erase =
    (s : HttpSession) (t : Tree HttpSession)
    → inorder (rb_erase s t) ≡ remove_session s.session (inorder t)

module _ (time : HttpSession → ℤ) where
  NoneBefore-remove_session :
      (a : ℤ) (n : ℕ) (xs : List HttpSession)
      → NoneBefore time a xs
      → NoneBefore time a (remove_session n xs)
  unfolding remove_session
  NoneBefore-remove_session a n [] h = tt
  NoneBefore-remove_session a n (x ∷ xs) h = elim (Bool-cases (x.session == n)) [
    | inl e ↦ rw e h.1
    | inr e ↦ rw e (h.0, NoneBefore-remove_session a n xs h.1)
  ]

  remove_session-IsSorted :
      (n : ℕ) (xs : List HttpSession) → IsSorted time xs → IsSorted time (remove_session n xs)
  unfolding remove_session
  remove_session-IsSorted n [] s = tt
  remove_session-IsSorted n (x ∷ xs) s = elim (Bool-cases (x.session == n)) [
    | inl e ↦ rw e s.1
    | inr e ↦ rw e (NoneBefore-remove_session (time x) n xs s.0, remove_session-IsSorted n xs s.1)
  ]

  module _ (rb_insert_color : HttpSession → Tree HttpSession → Tree HttpSession)
      (keeps : KeepsOrder rb_insert_color) where
    -- A session added to a tree in order stands where the ordered list has it, in front of the
    -- sessions of the same time, and the tree stays in order.
    pub add_tree_node-insert_sorted :
        (s : HttpSession) (t : Tree HttpSession)
        → IsSorted time (inorder t)
        → (inorder (add_tree_node time rb_insert_color s t) ≡ insert_sorted time s (inorder t))
          × IsSorted time (inorder (add_tree_node time rb_insert_color s t))
    unfolding add_tree_node
    add_tree_node-insert_sorted s t sorted =
        rw (keeps s (link_node time s t), link_node-insert_sorted time s t sorted)
          (refl, insert_sorted-IsSorted time s (inorder t) sorted)

module _ (rb_insert_color rb_erase : HttpSession → Tree HttpSession → Tree HttpSession)
    (keeps : KeepsOrder rb_insert_color) (erases : Erases rb_erase) where
  moved_to :
      (time : HttpSession → ℤ) (moved s : HttpSession) (t : Tree HttpSession)
      → IsSorted time (inorder t)
      → (inorder (add_tree_node time rb_insert_color moved (rb_erase s t))
          ≡ insert_sorted time moved (remove_session s.session (inorder t)))
        × IsSorted time (inorder (add_tree_node time rb_insert_color moved (rb_erase s t)))
  moved_to time moved s t sorted =
      let rest =
        subst (IsSorted time) (sym (erases s t))
          (remove_session-IsSorted time s.session (inorder t) sorted) in
      let (e, k) =
        add_tree_node-insert_sorted time rb_insert_color keeps moved (rb_erase s t) rest in
      (e ∙ ap (insert_sorted time moved) (erases s t), k)

  -- A session moved to another time leaves its old place and stands where the ordered list of the
  -- others has it; the tree stays in order.
  pub update_timeout_tree_node-insert_sorted :
      (s : HttpSession) (timestamp : ℤ) (t : Tree HttpSession)
      → IsSorted (λ x. x.timeout_timestamp) (inorder t)
      → let u = update_timeout_tree_node rb_insert_color rb_erase s timestamp t in
        (inorder u
          ≡ insert_sorted
              (λ x. x.timeout_timestamp)
              (record s { timeout_timestamp = timestamp })
              (remove_session s.session (inorder t)))
        × IsSorted (λ x. x.timeout_timestamp) (inorder u)
  unfolding update_timeout_tree_node
  update_timeout_tree_node-insert_sorted s timestamp t sorted =
      moved_to (λ x. x.timeout_timestamp) (record s { timeout_timestamp = timestamp }) s t sorted

  -- The same by the time of the other tree.
  pub update_elapse_tree_node-insert_sorted :
      (s : HttpSession) (timestamp : ℤ) (t : Tree HttpSession)
      → IsSorted (λ x. x.elapse_timestamp) (inorder t)
      → let u = update_elapse_tree_node rb_insert_color rb_erase s timestamp t in
        (inorder u
          ≡ insert_sorted
              (λ x. x.elapse_timestamp)
              (record s { elapse_timestamp = timestamp })
              (remove_session s.session (inorder t)))
        × IsSorted (λ x. x.elapse_timestamp) (inorder u)
  unfolding update_elapse_tree_node
  update_elapse_tree_node-insert_sorted s timestamp t sorted =
      moved_to (λ x. x.elapse_timestamp) (record s { elapse_timestamp = timestamp }) s t sorted
