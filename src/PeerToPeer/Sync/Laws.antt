-- ===== src/PeerToPeer/Sync/Laws.antt =====
-- What `SyncHandler` does with a pool in memory.
use mathlib.Core.List.{append_assoc}
use innopolis_networks_s.Base.{
  ℕ, zero, suc, ◌+◌, ◌<◌, ◌≤◌, ◌%◌, ◌^◌, ◌≡◌, refl, Bool, true, false, List, [], ◌∷◌, ◌++◌,
  if◌then◌else◌, length, length-append, arith, Bool-cases, inl, inr,
}
use innopolis_networks_s.Memory.{Memory, done, crash}
use innopolis_networks_s.Text.{Text}
use innopolis_networks_s.LinkedList.{Node, LinkedList}
use innopolis_networks_s.LinkedList.Layout.{Cell, IsList}
use innopolis_networks_s.LinkedList.Find.{get_val_lem, get_val-beyond}
use innopolis_networks_s.Peers
use innopolis_networks_s.Peers.{Message, signal, file_list, known_nodes, send_nodes}
use innopolis_networks_s.Peers.Sync.{delivered, addresses, all_work}
use innopolis_networks_s.PeerToPeer.ByteOrder.{ByteOrder}
use innopolis_networks_s.PeerToPeer.Sync.{sync_handler}

module _ {V : Type 0} (form_node_message : V → Text) (m : Memory (Node V)) (l : LinkedList) where
  -- one more step than the pool has nodes
  beyond :
      (xs : List (Cell V)) (k j : ℕ) (bs : List Bool)
      → IsList m l xs
      → 0 < length xs
      → length xs ≤ j
      → send_nodes form_node_message (suc k) j bs l m ≡ crash
  unfolding send_nodes
  beyond [] k j bs h some_node past = absurd (omega arith)
  beyond (x ∷ xs) k j bs h some_node past = rw (get_val-beyond m l x xs j h past) refl

  too_many :
      (left : ℕ) (xs ys : List (Cell V)) (bs : List Bool)
      → IsList m l (xs ++ ys)
      → 0 < length (xs ++ ys)
      → length ys < left
      → send_nodes form_node_message left (length xs) bs l m ≡ (
          if all_work (length ys) bs
          then crash
          else done (delivered (addresses form_node_message ys) bs) m)
  unfolding send_nodes delivered all_work
  too_many zero xs ys bs h some_node more = absurd (omega arith)
  too_many (suc k) xs [] bs h some_node more =
      beyond (xs ++ []) k (length xs) bs h some_node (omega (arith, length-append xs []))
  too_many (suc k) xs (y ∷ ys) [] h some_node more = rw (get_val_lem m l xs ys y h) refl
  too_many (suc k) xs (y ∷ ys) (false ∷ bs) h some_node more = rw (get_val_lem m l xs ys y h) refl
  too_many (suc k) xs (y ∷ ys) (true ∷ bs) h some_node more =
      let shift : length (xs ++ y ∷ []) ≡ length xs + 1 = length-append xs (y ∷ []) in
      let h' : IsList m l ((xs ++ y ∷ []) ++ ys) = rw append_assoc h in
      let some' : 0 < length ((xs ++ y ∷ []) ++ ys) = rw append_assoc some_node in
      let rest = too_many k (xs ++ y ∷ []) ys bs h' some' (omega arith) in
      rw (get_val_lem m l xs ys y h, ← shift, rest)
        (elim (Bool-cases (all_work (length ys) bs)) [ inl e ↦ rw e refl | inr e ↦ rw e refl ])

  module _ (b : ByteOrder) (files : Text) where
    -- `SyncHandler` on a pool of n nodes in memory, n > 0, whose n in network order, k, is greater than
    -- n: it sends the signal, its own address and files, the k and the addresses of the nodes, up to the
    -- first call of `send` that fails; if all of these calls work, it goes on to read the node behind
    -- the last one and crashes.
    pub sync_handler-beyond :
        (c : Cell V) (cs : List (Cell V)) (bs : List Bool)
        → IsList m l (c ∷ cs)
        → length (c ∷ cs) < 2 ^ 32
        → length (c ∷ cs) < b.htonl (length (c ∷ cs))
        → sync_handler b form_node_message files bs l m ≡ (
            if all_work (suc (suc (suc (length (c ∷ cs))))) bs
            then crash
            else done
                (delivered
                  (signal
                    ∷ file_list files
                    ∷ known_nodes (b.htonl (length (c ∷ cs)))
                    ∷ addresses form_node_message (c ∷ cs))
                  bs)
                m)
    unfolding sync_handler delivered all_work
    sync_handler-beyond c cs [] h few more = refl
    sync_handler-beyond c cs (false ∷ bs) h few more = refl
    sync_handler-beyond c cs (true ∷ []) h few more = refl
    sync_handler-beyond c cs (true ∷ false ∷ bs) h few more = refl
    sync_handler-beyond c cs (true ∷ true ∷ []) h few more = refl
    sync_handler-beyond c cs (true ∷ true ∷ false ∷ bs) h few more = refl
    sync_handler-beyond c cs (true ∷ true ∷ true ∷ bs) h few more =
        let size : l.size % 2 ^ 32 ≡ length (c ∷ cs) = omega (arith, h.size) in
        rw (size, too_many (b.htonl (length (c ∷ cs))) [] (c ∷ cs) bs h (omega arith) more)
          (elim (Bool-cases (all_work (length (c ∷ cs)) bs)) [
            | inl e ↦ rw e refl
            | inr e ↦ rw e refl
          ])

    -- Where network order leaves the number of known nodes as it is, as it does for an empty pool,
    -- `SyncHandler` does the same as Lab 7's `sync_handler`.
    pub sync_handler-same :
        (bs : List Bool)
        → l.size < 2 ^ 32
        → b.htonl l.size ≡ l.size
        → sync_handler b form_node_message files bs l m
          ≡ Peers.sync_handler form_node_message files bs l m
    unfolding sync_handler Peers.sync_handler
    sync_handler-same bs few same =
        let size : l.size % 2 ^ 32 ≡ l.size = omega arith in rw (size, same) refl
