-- ===== src/Server/Tree.antt =====
-- The trees of sessions in src/HttpSessionTimeoutTree.c and src/HttpSessionElapseTree.c, ordered
-- by a time. The two files differ in the time they compare; `rb_insert_color` and `rb_erase` are
-- those of src/rbtree.c, a copy of the Linux kernel's, and parameters here.
pub mod Order
pub mod Expiry
pub mod Update
pub mod Examples
use hetao.Base.{ℕ, Bool, Option, none, some, List, [], ◌∷◌, ◌++◌, if◌then◌else◌}
use hetao.Base.Int.{ℤ, ltb_ℤ}

pub data Tree {ℓ} (A : Type ℓ) : Type ℓ where
  leaf : Tree A
  node : Tree A → A → Tree A → Tree A

unfoldable pub inorder {ℓ} : {A : Type ℓ} → Tree A → List A
inorder leaf = []
inorder (node l x r) = inorder l ++ x ∷ inorder r

-- `rb_first`
unfoldable pub rb_first {ℓ} : {A : Type ℓ} → Tree A → Option A
rb_first leaf = none
rb_first (node leaf x r) = some x
rb_first (node (node l y m) x r) = rb_first (node l y m)

-- The descent to the place of the new node, and `rb_link_node`; equal times go to the left.
unfoldable pub link_node {ℓ} : {A : Type ℓ} → (A → ℤ) → A → Tree A → Tree A
link_node time x leaf = node leaf x leaf
link_node time x (node l y r) =
    let to_left = node (link_node time x l) y r in
    let to_right = node l y (link_node time x r) in
    if ltb_ℤ (time x) (time y)
    then to_left
    else if ltb_ℤ (time y) (time x)
    then to_right
    else to_left

-- The address of the client, the server that a request is forwarded to, whether a connection to it
-- is made, and the two times. A tree holds a session with the time that it compares.
pub record HttpSession : Type 0 where
  pub session : ℕ
  pub ip : ℕ
  pub p_forward_server : Option ℕ
  pub forward_flags : Bool
  pub timeout_timestamp : ℤ
  pub elapse_timestamp : ℤ

-- AddHttpSessionTimeoutTreeNode and AddHttpSessionElapseTreeNode; they return 0 always.
unfoldable pub add_tree_node :
    (HttpSession → ℤ)
    → (HttpSession → Tree HttpSession → Tree HttpSession)
    → HttpSession
    → Tree HttpSession
    → Tree HttpSession
unfolding link_node
add_tree_node time rb_insert_color s t = rb_insert_color s (link_node time s t)

abbrev pub if_expired : (HttpSession → ℤ) → ℤ → Option HttpSession → Option HttpSession
if_expired time now none = none
if_expired time now (some s) = if ltb_ℤ now (time s) then none else some s

-- GetExpireHttpSessionTimeoutTreeNode and GetExpireHttpSessionElapseTreeNode, at the time `now`.
unfoldable pub get_expire_tree_node : (HttpSession → ℤ) → ℤ → Tree HttpSession → Option HttpSession
unfolding rb_first
get_expire_tree_node time now t = if_expired time now (rb_first t)

-- UpdateHttpSessionTimeoutTreeNode
unfoldable pub update_timeout_tree_node :
    (HttpSession → Tree HttpSession → Tree HttpSession)
    → (HttpSession → Tree HttpSession → Tree HttpSession)
    → HttpSession
    → ℤ
    → Tree HttpSession
    → Tree HttpSession
unfolding add_tree_node
update_timeout_tree_node rb_insert_color rb_erase s timestamp t =
    add_tree_node (λ x. x.timeout_timestamp) rb_insert_color
      (record s { timeout_timestamp = timestamp }) (rb_erase s t)

-- UpdateHttpSessionElapseTreeNode
unfoldable pub update_elapse_tree_node :
    (HttpSession → Tree HttpSession → Tree HttpSession)
    → (HttpSession → Tree HttpSession → Tree HttpSession)
    → HttpSession
    → ℤ
    → Tree HttpSession
    → Tree HttpSession
unfolding add_tree_node
update_elapse_tree_node rb_insert_color rb_erase s timestamp t =
    add_tree_node (λ x. x.elapse_timestamp) rb_insert_color
      (record s { elapse_timestamp = timestamp }) (rb_erase s t)
