-- ===== src/Pools/Syncer.antt =====
-- The `for` of `syncer` over a pool that grows while it goes.
use innopolis_networks_s.Base.{
  ◌≤◌, false, Bool, ℕ, ◌+◌, ◌<◌, ◌≡◌, refl, ap, sym, subst, ◌∙◌, inl, inr, true, some, List, [],
  ◌∷◌, ◌++◌, map, length, size_max, ltb, arith, length-append, split_at,
}
use innopolis_networks_s.Memory.{Memory, Allocator, done}
use innopolis_networks_s.Memory.Alloc.{Refuses}
use innopolis_networks_s.Memory.Ends
use innopolis_networks_s.Memory.Ends.{Ends, ends}
use innopolis_networks_s.LinkedList.{Node, get_val}
use innopolis_networks_s.LinkedList.Layout.{Cell, IsList}
use innopolis_networks_s.LinkedList.Find.{get_val_lem}
use innopolis_networks_s.Peers.{NetworkNode}
use innopolis_networks_s.Pools.{Value, peer, shared, NodeFile, Pools, Answers, as_node, syncer_for}
use innopolis_networks_s.Pools.Invariant.{Holds}
use innopolis_networks_s.Pools.Sync.{Arrived, arrived, not_arrived, answering, send_sync-answering}

-- One answer.
pub record Reply : Type 0 where
  pub node : NetworkNode
  pub signal : ℕ
  pub files : List NodeFile
  pub peers : List NetworkNode

abbrev pub answer : Reply → Answers
answer r = answering r.signal r.node r.files r.peers

-- How many nodes, and how many files, are named in all.
abbrev pub named_nodes : List Reply → ℕ
named_nodes [] = 0
named_nodes (r ∷ rs) = 1 + length r.peers + named_nodes rs

abbrev pub named_files : List Reply → ℕ
named_files [] = 0
named_files (r ∷ rs) = length r.files + named_files rs

module _ (memcmp_eq : Value → Value → Bool) (al : Allocator (Node Value))
    (reinterpret : NodeFile → NetworkNode) where
  as_node-done :
      (v : Value) (m : Memory (Node Value))
      → (node : NetworkNode) × (as_node memcmp_eq al reinterpret (some v) m ≡ done node m)
  as_node-done (peer node) m = (node, refl)
  as_node-done (shared file) m = (reinterpret file, refl)

  length-Arrived :
      (node : NetworkNode) (first : List (Cell Value))
      → ¬ Refuses al
      → Arrived al node first
      → length first ≡ 1
  length-Arrived node first never (arrived c e) = refl
  length-Arrived node first never (not_arrived may) = absurd (never may)

  get_val-inside :
      (m : Memory (Node Value)) (p : Pools) (ns fs : List (Cell Value)) (i : ℕ)
      → Holds m p ns fs
      → i < length ns
      → (v : Value) × (get_val p.nodepool i m ≡ done (some v) m)
  get_val-inside m p ns fs i h inside = elim (split_at ns i) [
    | inr past ↦ absurd (omega arith)
    | inl (xs, ys, c, e, k) ↦ (
      c.val,
      ap (λ j. get_val p.nodepool j m) (sym k)
          ∙ get_val_lem m p.nodepool xs ys c (subst (IsList m p.nodepool) e h.nodes),
    )
  ]

  -- From an index behind the pool it makes no round.
  pub syncer_for-past :
      (xs : List Answers) (i : ℕ) (p : Pools) (m : Memory (Node Value))
      → p.nodepool.size ≤ i
      → syncer_for memcmp_eq al reinterpret xs i p m ≡ done (p, i) m
  unfolding syncer_for
  syncer_for-past [] i p m past = refl
  syncer_for-past (x ∷ xs) i p m past =
      let off : ltb i p.nodepool.size ≡ false = ground arith in rw off refl

  -- Where every peer answers and the allocator never refuses, the `for` of `syncer` does not come to its
  -- end: after any number of answers it stands as many indices further than it began, still inside the
  -- pool, since each sync puts a node before all others. The pools have to stay below the greatest size,
  -- and `memcmp` finds each value equal to itself.
  pub syncer_for-endless :
      ((v : Value) → memcmp_eq v v ≡ true)
      → ¬ Refuses al
      → (rs : List Reply) (i : ℕ) (m : Memory (Node Value)) (p : Pools) (ns fs : List (Cell Value))
      → Holds m p ns fs
      → i < length ns
      → length ns + named_nodes rs < size_max
      → length fs + named_files rs < size_max
      → Ends
          (λ (p', j) m'. (j ≡ i + length rs) × (j < p'.nodepool.size))
          (syncer_for memcmp_eq al reinterpret (map answer rs) i p m)
  unfolding syncer_for
  syncer_for-endless memcmp_refl never [] i m p ns fs h inside room room' =
      ends (omega arith, omega (arith, h.nodes.size))
  syncer_for-endless memcmp_refl never (r ∷ rs) i m p ns fs h inside room room' =
      let (v, found) = get_val-inside m p ns fs i h inside in
      let (node, read) = as_node-done v m in
      let on : ltb i p.nodepool.size ≡ true = ground (arith, h.nodes.size) in
      rw (on, found, read)
        (Ends.seq
          (send_sync-answering memcmp_eq al memcmp_refl m p ns fs node r.node r.signal r.files
            r.peers h (omega arith) (omega arith))
          λ p1 m1 g.
            let one = length-Arrived r.node g.first never g.node_arrived in
            let len = length-append g.fresh (g.first ++ ns) in
            let len' = length-append g.first ns in
            let len'' = length-append g.fresh_files fs in
            Ends.weaken
              (syncer_for-endless memcmp_refl never rs (i + 1) m1 p1 (g.fresh ++ (g.first ++ ns))
                (g.fresh_files ++ fs) g.holds (omega (arith, len, len', one))
                (omega (arith, len, len', one, g.few_nodes)) (omega (arith, len'', g.few_files)))
              λ (p', j) m' (at, still). (omega (arith, at), still))
