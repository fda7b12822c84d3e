-- ===== src/Pools/Silent.antt =====
-- What a sync with a peer that does not answer leaves in the two pools.
use innopolis_networks_s.Base.{
  none, ◌&&◌, not, Bool-cases, ◌<◌, ◌≡◌, inl, inr, refl, [], Bool, true, false, List, ◌∷◌, ◌++◌,
  length, arith,
}
use innopolis_networks_s.Memory.{Memory, Allocator, crash}
use innopolis_networks_s.Memory.Ends
use innopolis_networks_s.Memory.Ends.{Ends, ends}
use innopolis_networks_s.LinkedList.{Node}
use innopolis_networks_s.LinkedList.Layout.{Cell}
use innopolis_networks_s.LinkedList.Frame.{Spared-remove}
use innopolis_networks_s.Peers.{NetworkNode}
use innopolis_networks_s.Peers.Laws.{Absent, remove_inactive_node-one, remove_inactive_node_lem}
use innopolis_networks_s.Pools.{Value, peer, Pools, Answers, drop_node, no_signal, send_sync}
use innopolis_networks_s.Pools.Invariant.{Holds, step_nodes}

module _ (memcmp_eq : Value → Value → Bool) (al : Allocator (Node Value)) where
  drop_lem :
      (m : Memory (Node Value)) (p : Pools) (xs ys fs : List (Cell Value)) (c : Cell Value)
      (node : NetworkNode)
      → Holds m p (xs ++ c ∷ ys) fs
      → 1 < length (xs ++ c ∷ ys)
      → Absent (memcmp_eq (peer node)) xs
      → memcmp_eq (peer node) c.val ≡ true
      → Ends
          (λ p' m'. Holds m' p' (xs ++ ys) fs × (m'.cell c.addr ≡ none))
          (drop_node memcmp_eq al p node m)
  drop_lem m p xs ys fs c node h many absent found =
      Ends.seq
        (remove_inactive_node_lem memcmp_eq m p.nodepool (peer node) xs ys c h.nodes many absent
          found)
        λ l m' q. ends (
          step_nodes m m' p l (xs ++ c ∷ ys) (xs ++ ys) fs h q.0 (Spared-remove m m' xs ys c q.2),
          q.1,
        )

  -- `send_sync` with a peer that cannot be sent to, or gives no signal or a negative one, on a pool of
  -- two or more nodes that has it: it is taken out of the pool of nodes and freed, and the other nodes
  -- and the files stay.
  pub send_sync-silent :
      (x : Answers) (m : Memory (Node Value)) (p : Pools) (xs ys fs : List (Cell Value))
      (c : Cell Value) (node : NetworkNode)
      → (x.send_ok && not (no_signal x.signal)) ≡ false
      → Holds m p (xs ++ c ∷ ys) fs
      → 1 < length (xs ++ c ∷ ys)
      → Absent (memcmp_eq (peer node)) xs
      → memcmp_eq (peer node) c.val ≡ true
      → Ends
          (λ p' m'. Holds m' p' (xs ++ ys) fs × (m'.cell c.addr ≡ none))
          (send_sync memcmp_eq al x node p m)
  unfolding send_sync
  send_sync-silent x m p xs ys fs c node silent h many absent found =
      let end = drop_lem m p xs ys fs c node h many absent found in
      elim (Bool-cases x.send_ok) [
        | inr e ↦ rw e end
        | inl e ↦ let e' : no_signal x.signal ≡ true = ground arith in rw (e, e') end
      ]

  -- On a pool of that one node `send_sync` crashes.
  pub send_sync-one :
      (x : Answers) (m : Memory (Node Value)) (p : Pools) (fs : List (Cell Value)) (c : Cell Value)
      (node : NetworkNode)
      → (x.send_ok && not (no_signal x.signal)) ≡ false
      → Holds m p (c ∷ []) fs
      → memcmp_eq (peer node) c.val ≡ true
      → send_sync memcmp_eq al x node p m ≡ crash
  unfolding send_sync
  send_sync-one x m p fs c node silent h found =
      let lost = remove_inactive_node-one memcmp_eq m p.nodepool (peer node) c h.nodes found in
      elim (Bool-cases x.send_ok) [
        | inr e ↦ rw (e, lost) refl
        | inl e ↦ let e' : no_signal x.signal ≡ true = ground arith in rw (e, e', lost) refl
      ]
