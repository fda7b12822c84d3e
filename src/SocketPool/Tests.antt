-- ===== src/SocketPool/Tests.antt =====
-- Pools of ten places and of three.
use innopolis_networks_s.Base.{
  ℕ, ◌+◌, ◌<◌, ◌≡◌, refl, true, none, some, List, [], ◌∷◌, ◌++◌, ℤ, pos, length, arith,
}
use innopolis_networks_s.Base.Options.{◌>>=◌}
use innopolis_networks_s.SocketPool.{add_node, add_nodes, remove_node, search_loop}
use innopolis_networks_s.SocketPool.Adds.{pool_of, add_nodes_lem}
use innopolis_networks_s.SocketPool.Lost.{rest_of, add_node-remove_node}
use innopolis_networks_s.SocketPool.Overflow.{add_nodes-remove_node}

abbrev some_fds : List ℤ
some_fds = pos 4 ∷ pos 5 ∷ pos 6 ∷ []

add_nodes_lem_example :
    (size : ℕ) × (add_nodes some_fds (pool_of 3 []) ≡ some (pool_of size ([] ++ some_fds)))
    × (length ([] ++ some_fds) + 2 < size)
add_nodes_lem_example = add_nodes_lem some_fds 3 [] (omega arith)

abbrev behind : List ℤ
behind = pos 5 ∷ pos 6 ∷ pos 7 ∷ pos 8 ∷ []

add_node-remove_node_example :
    (remove_node true (pos 4) (pool_of 10 ([] ++ pos 4 ∷ (behind ++ pos 9 ∷ [])))
      >>= add_node true (pos 10))
    ≡ some (record {
      nodepool = ([] ++ pos 0 ∷ behind) ++ pos 10 ∷ rest_of 10 [] behind (pos 9) (pos 10);
      nnodes = pos (0 + length (behind ++ pos 9 ∷ []) + 1);
      poolsize = 10;
    })
add_node-remove_node_example =
    add_node-remove_node 10 [] behind (pos 9) (pos 10) (pos 4) tt (omega arith) (omega arith)

abbrev more : List ℤ
more = pos 11 ∷ pos 12 ∷ pos 13 ∷ []

add_nodes-remove_node_example :
    (remove_node true (pos 5) (pool_of 10 ((pos 4 ∷ []) ++ pos 5 ∷ pos 6 ∷ pos 7 ∷ []))
      >>= add_nodes more)
    ≡ none
add_nodes-remove_node_example =
    add_nodes-remove_node 10 (pos 4 ∷ []) (pos 6 ∷ pos 7 ∷ []) (pos 5) more (refl, tt) (omega arith)
      (omega arith) (omega arith) (omega arith)

-- a run: the socket 9 is gone
loses :
    (remove_node true (pos 4) (pool_of 10 (pos 4 ∷ behind ++ pos 9 ∷ []))
      >>= add_node true (pos 10))
    ≡ some (record {
      nodepool = pos 0 ∷ behind ++ pos 10 ∷ pos 0 ∷ pos 0 ∷ pos 0 ∷ pos 0 ∷ [];
      nnodes = pos 6;
      poolsize = 10;
    })
unfolding remove_node add_node search_loop
loses = refl
