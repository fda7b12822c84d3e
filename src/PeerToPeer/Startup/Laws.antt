-- ===== src/PeerToPeer/Startup/Laws.antt =====
-- What becomes of the address and the port that the user types.
use innopolis_networks_s.Base.{
  ℕ, ◌≡◌, ◌≢◌, ◌⊎◌, inl, inr, refl, true, List, [], ◌∷◌, ◌==◌, Bool-cases, arith,
}
use innopolis_networks_s.Memory.{Memory, Allocator}
use innopolis_networks_s.Memory.Alloc.{Refuses, Bounded}
use innopolis_networks_s.Memory.Ends
use innopolis_networks_s.Memory.Ends.{Ends, ends}
use innopolis_networks_s.Text.{Text}
use innopolis_networks_s.LinkedList.{new_linked_list, LinkedList}
use innopolis_networks_s.LinkedList
use innopolis_networks_s.LinkedList.Layout.{Cell, IsList}
use innopolis_networks_s.LinkedList.Insert.{Inserted, inserted, refused, insert_val_lem}
use innopolis_networks_s.Peers.{NetworkNode}
use innopolis_networks_s.Startup.Laws.{Contacts, ask-Contacts}
use innopolis_networks_s.PeerToPeer.Startup.{
  Calls, Node, Started, running, port_of, first_port, own_port, first_node, main,
}

own_port_lem : (port : ℕ) → own_port port ≢ port
own_port_lem port = elim (Bool-cases (port == first_port)) [
  | inl e ↦ λ h. ground arith
  | inr e ↦ λ h. ground arith
]

IsList-new : {V : Type 0} (m : Memory (LinkedList.Node V)) → Bounded m → IsList m new_linked_list []
IsList-new m b = record {
  head = refl;
  tail = refl;
  size = refl;
  fits = omega arith;
  chain = tt;
  bounded = b;
}

module _ (al : Allocator (LinkedList.Node NetworkNode)) (stale : ℕ) (calls : Calls) where
  -- The node runs with the contact alone in its pool, or with no node where the allocator refuses, and
  -- with a port of its own.
  pub record Connected (addr : Text) (port : ℕ) (r : Started)
      (m : Memory (LinkedList.Node NetworkNode)) : Type 0 where
    pub node : Node
    pub runs : r ≡ running node
    pub pool :
        ((c : Cell NetworkNode) × (c.val ≡ first_node al stale calls addr port)
          × IsList m node.nodepool (c ∷ []))
        ⊎ (Refuses al × IsList m node.nodepool [])
    pub port_free : node.main_port ≢ port

  pool_of :
      {m m' : Memory (LinkedList.Node NetworkNode)} {v : NetworkNode} {l : LinkedList} {r : ℕ}
      → Inserted al m new_linked_list v [] [] (l, r) m'
      → ((c : Cell NetworkNode) × (c.val ≡ v) × IsList m' l (c ∷ []))
        ⊎ (Refuses al × IsList m' l [])
  pool_of (inserted c is_v free list same) = inl (c, is_v, list)
  pool_of (refused may list same) = inr (may, list)

  -- If the user says yes and gives an address and a port, and the calls of the system work, then `main`
  -- ends with that node alone in the pool of nodes, or with an empty pool where the allocator refuses the
  -- node of the list, and its own port is another one.
  pub main_lem :
      (strtoul : Text → ℕ) (typed : List Text) (addr : Text) (port : ℕ)
      (m : Memory (LinkedList.Node NetworkNode))
      → Bounded m
      → Contacts (port_of strtoul) typed addr port
      → calls.heap_ok ≡ true
      → calls.wsa_ok ≡ true
      → calls.listener_ok ≡ true
      → Ends (Connected addr port) (main al stale calls strtoul typed m)
  unfolding main
  main_lem strtoul typed addr port m b h heap wsa listener =
      rw (ask-Contacts (port_of strtoul) typed addr port h, heap)
        (Ends.seq
          (insert_val_lem al m new_linked_list (first_node al stale calls addr port) [] []
            (IsList-new m b) (omega arith))
          λ (l, r) m' q. ends (record {
            node = record { nodepool = l; filepool = new_linked_list; main_port = own_port port };
            runs = rw (wsa, listener) refl;
            pool = pool_of q;
            port_free = own_port_lem port;
          }))
