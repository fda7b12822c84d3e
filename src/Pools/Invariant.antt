-- ===== src/Pools/Invariant.antt =====
-- The two pools in memory.
use innopolis_networks_s.Base.{List}
use innopolis_networks_s.Memory.{Memory}
use innopolis_networks_s.LinkedList.{Node, LinkedList}
use innopolis_networks_s.LinkedList.Layout.{Cell, Apart, IsList}
use innopolis_networks_s.LinkedList.Frame.{Spared, IsList-Spared, Apart-sym}
use innopolis_networks_s.Pools.{Value, Pools}

-- Two lists, with no node in common.
pub record Holds (m : Memory (Node Value)) (p : Pools) (ns fs : List (Cell Value)) : Type 0 where
  pub nodes : IsList m p.nodepool ns
  pub files : IsList m p.filepool fs
  pub apart : Apart ns fs

-- a step on the pool of nodes
pub step_nodes :
    (m m' : Memory (Node Value)) (p : Pools) (l : LinkedList) (ns ns' fs : List (Cell Value))
    → Holds m p ns fs
    → IsList m' l ns'
    → Spared m ns m' ns'
    → Holds m' (record p { nodepool = l }) ns' fs
step_nodes m m' p l ns ns' fs h list s =
    let (files, apart) =
      IsList-Spared m m' p.filepool ns ns' fs s (Apart-sym ns fs h.apart) list.bounded h.files in
    record { nodes = list; files = files; apart = Apart-sym fs ns' apart }

-- a step on the pool of files
pub step_files :
    (m m' : Memory (Node Value)) (p : Pools) (l : LinkedList) (ns fs fs' : List (Cell Value))
    → Holds m p ns fs
    → IsList m' l fs'
    → Spared m fs m' fs'
    → Holds m' (record p { filepool = l }) ns fs'
step_files m m' p l ns fs fs' h list s =
    let (nodes, apart) = IsList-Spared m m' p.nodepool fs fs' ns s h.apart list.bounded h.nodes in
    record { nodes = nodes; files = list; apart = apart }
