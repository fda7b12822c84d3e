-- ===== src/LinkedList/Access.antt =====
-- Reads and writes of a node, and the walk to an index.
use innopolis_networks_s.Base.{◌≡◌, refl, ◌≢◌, some, List, [], ◌∷◌, ◌++◌, length}
use innopolis_networks_s.Memory.{Ptr, null, Memory, put, done}
use innopolis_networks_s.Memory.Access.{load-some, store-some}
use innopolis_networks_s.LinkedList.{Node, set_next, set_prev, jump}
use innopolis_networks_s.LinkedList.Layout.{node, Cell, first_or, Chain}

module _ {V : Type 0} (m : Memory (Node V)) where
  pub set_next-some :
      (p q : Ptr) (n : Node V)
      → p ≢ null
      → m.cell p ≡ some n
      → set_next p q m ≡ done tt (put m p (some (node n.val q n.prev)))
  unfolding set_next
  set_next-some p q n ne e = rw (load-some m p n ne e) (store-some m p n ne e _)

  pub set_prev-some :
      (p q : Ptr) (n : Node V)
      → p ≢ null
      → m.cell p ≡ some n
      → set_prev p q m ≡ done tt (put m p (some (node n.val n.next q)))
  unfolding set_prev
  set_prev-some p q n ne e = rw (load-some m p n ne e) (store-some m p n ne e _)

  pub jump_lem :
      (p q : Ptr) (xs ys : List (Cell V))
      → Chain m.cell p q (xs ++ ys)
      → jump (length xs) (first_or q (xs ++ ys)) m ≡ done (first_or q ys) m
  unfolding jump
  jump_lem p q [] ys h = refl
  jump_lem p q (x ∷ xs) ys h = rw (load-some m x.addr _ h.0 h.1) (jump_lem x.addr q xs ys h.3)
