-- ===== src/Peers/Tests.antt =====
-- A pool of two nodes.
use innopolis_networks_s.Text.{Text}
use innopolis_networks_s.Base.{
  ◌++◌, ℕ, ◌≡◌, refl, ◌==◌, Bool, true, false, none, some, List, [], ◌∷◌, arith,
}
use innopolis_networks_s.Memory.{Memory, write}
use innopolis_networks_s.Memory.Bump.{bump}
use innopolis_networks_s.Memory.Ends.{Ends}
use innopolis_networks_s.LinkedList.{Node, LinkedList}
use innopolis_networks_s.LinkedList.Layout.{node, Cell, IsList}
use innopolis_networks_s.Peers.{NetworkNode, parse_peers}
use innopolis_networks_s.Peers.Pool.{AllDifferent, Grown, parse_peers_lem}

abbrev me : Text
me = b'm' ∷ b':' ∷ []

abbrev at_port : ℕ → NetworkNode
at_port n = record { name = b'p' ∷ []; ipaddr = b'1' ∷ []; port = n; stale = 0 }

abbrev same : NetworkNode → NetworkNode → Bool
same a b = a.port == b.port

same_refl : (v : NetworkNode) → same v v ≡ true
same_refl v = ground arith

abbrev first : Cell NetworkNode
first = record { addr = 1; val = at_port 2000 }

abbrev second : Cell NetworkNode
second = record { addr = 2; val = at_port 2001 }

abbrev memory : Memory (Node NetworkNode)
memory = record {
  cell =
      write (write (λ a. none) 1 (some (node (at_port 2000) 2 0))) 2
        (some (node (at_port 2001) 0 1));
  calls = 2;
  limit = 3;
}

abbrev pool : LinkedList
pool = record { head = 1; tail = 2; size = 2 }

pool-IsList : IsList memory pool (first ∷ second ∷ [])
unfolding write
pool-IsList = record {
  head = refl;
  tail = refl;
  size = refl;
  fits = omega arith;
  chain = (ground arith, refl, refl, (ground arith, refl, refl, tt));
  bounded = λ a h. ground arith;
}

abbrev single : Memory (Node NetworkNode)
single = record {
  cell = write (λ a. none) 1 (some (node (at_port 2000) 0 0));
  calls = 1;
  limit = 2;
}

abbrev one : LinkedList
one = record { head = 1; tail = 1; size = 1 }

one-IsList : IsList single one (first ∷ [])
unfolding write
one-IsList = record {
  head = refl;
  tail = refl;
  size = refl;
  fits = omega arith;
  chain = (ground arith, refl, refl, tt);
  bounded = λ a h. ground arith;
}

abbrev address : NetworkNode → Text
address n = n.ipaddr

abbrev works : List Bool
works = true ∷ true ∷ true ∷ true ∷ false ∷ []

parse_peers_lem_example :
    Ends
      (λ l' m'.
        (g : Grown same
          (bump (Node NetworkNode))
          memory
          (first ∷ second ∷ [])
          (at_port 7 ∷ at_port 2000 ∷ [])
          l'
          m')
        × AllDifferent same (g.fresh ++ (first ∷ second ∷ [])))
      (parse_peers same (bump (Node NetworkNode)) pool (at_port 7 ∷ at_port 2000 ∷ []) memory)
parse_peers_lem_example =
    parse_peers_lem same (bump (Node NetworkNode)) same_refl (at_port 7 ∷ at_port 2000 ∷ []) memory
      pool (first ∷ second ∷ []) pool-IsList ((refl, tt), (tt, tt)) (omega arith)
