-- ===== src/Peers/Sync.antt =====
-- What `sync_handler` sends of a pool in memory.
use mathlib.Core.List.{append_assoc}
use innopolis_networks_s.Text.{Text}
use innopolis_networks_s.Base.{
  ℕ, zero, suc, ◌+◌, ◌≡◌, refl, ap, ◌∙◌, Bool, true, false, List, [], ◌∷◌, ◌++◌, length,
  length-append,
}
use innopolis_networks_s.Memory.{Memory, done, pure, and_then}
use innopolis_networks_s.LinkedList.{Node, LinkedList}
use innopolis_networks_s.LinkedList.Layout.{Cell, IsList}
use innopolis_networks_s.LinkedList.Find.{get_val_lem}
use innopolis_networks_s.Peers.{
  Message, signal, file_list, known_nodes, node_address, send_nodes, sync_handler,
}

-- The messages for which `send` works, up to the first for which it fails.
unfoldable pub delivered : List Message → List Bool → List Message
delivered [] bs = []
delivered (x ∷ xs) [] = []
delivered (x ∷ xs) (true ∷ bs) = x ∷ delivered xs bs
delivered (x ∷ xs) (false ∷ bs) = []

-- The next `n` calls of `send` work.
unfoldable pub all_work : ℕ → List Bool → Bool
all_work zero bs = true
all_work (suc n) [] = false
all_work (suc n) (true ∷ bs) = all_work n bs
all_work (suc n) (false ∷ bs) = false

pub delivered-all_work :
    (xs : List Message) (bs : List Bool) → all_work (length xs) bs ≡ true → delivered xs bs ≡ xs
unfolding delivered all_work
delivered-all_work [] bs h = refl
delivered-all_work (x ∷ xs) [] h = cc
delivered-all_work (x ∷ xs) (true ∷ bs) h = ap (λ r. x ∷ r) (delivered-all_work xs bs h)
delivered-all_work (x ∷ xs) (false ∷ bs) h = cc

module _ {V : Type 0} where
  module _ (form_node_msg : V → Text) where
    abbrev pub addresses : List (Cell V) → List Message
    addresses [] = []
    addresses (c ∷ cs) = node_address (form_node_msg c.val) ∷ addresses cs

    module _ (m : Memory (Node V)) (l : LinkedList) where
      send_nodes_lem :
          (xs ys : List (Cell V)) (bs : List Bool)
          → IsList m l (xs ++ ys)
          → send_nodes form_node_msg (length ys) (length xs) bs l m
            ≡ done (delivered (addresses ys) bs) m
      unfolding send_nodes delivered
      send_nodes_lem xs [] bs h = refl
      send_nodes_lem xs (y ∷ ys) [] h = rw (get_val_lem m l xs ys y h) refl
      send_nodes_lem xs (y ∷ ys) (false ∷ bs) h = rw (get_val_lem m l xs ys y h) refl
      send_nodes_lem xs (y ∷ ys) (true ∷ bs) h =
          let shift : length (xs ++ y ∷ []) ≡ length xs + 1 = length-append xs (y ∷ []) in
          let h' : IsList m l ((xs ++ y ∷ []) ++ ys) = rw append_assoc h in
          rw (get_val_lem m l xs ys y h, ← shift, send_nodes_lem (xs ++ y ∷ []) ys bs h') refl

      -- `sync_handler` on a pool in memory sends the signal, its own address and files, the number of
      -- known nodes and the address of each of them in order, up to the first call of `send` that fails,
      -- and leaves pool and memory as they are.
      pub sync_handler_lem :
          (files : Text) (cs : List (Cell V)) (bs : List Bool)
          → IsList m l cs
          → sync_handler form_node_msg files bs l m
            ≡ done
                (delivered (signal ∷ file_list files ∷ known_nodes (length cs) ∷ addresses cs) bs)
                m
      unfolding sync_handler delivered
      sync_handler_lem files cs [] h = refl
      sync_handler_lem files cs (false ∷ bs) h = refl
      sync_handler_lem files cs (true ∷ []) h = refl
      sync_handler_lem files cs (true ∷ false ∷ bs) h = refl
      sync_handler_lem files cs (true ∷ true ∷ []) h = refl
      sync_handler_lem files cs (true ∷ true ∷ false ∷ bs) h = refl
      sync_handler_lem files cs (true ∷ true ∷ true ∷ bs) h =
          ap
            (λ n.
              and_then (send_nodes form_node_msg n 0 bs l m)
                λ out. pure (signal ∷ file_list files ∷ known_nodes n ∷ out))
            h.size
          ∙ rw (send_nodes_lem [] cs bs h) refl
