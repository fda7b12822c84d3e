-- ===== src/Pools/Passes.antt =====
-- The passes of `syncer` over a pool whose nodes do not answer.
use innopolis_networks_s.Base.{
  suc, ◌<◌, ◌≤◌, ◌≡◌, refl, subst, Bool, true, false, ltb, List, [], ◌∷◌, length, arith,
}
use innopolis_networks_s.Memory.{Memory, Allocator, crash}
use innopolis_networks_s.Memory.Ends
use innopolis_networks_s.LinkedList.{Node}
use innopolis_networks_s.LinkedList.Layout.{Cell}
use innopolis_networks_s.LinkedList.Find.{get_val_lem}
use innopolis_networks_s.Peers.{NetworkNode}
use innopolis_networks_s.Pools.{NodeFile, Value, peer, Pools, Answers, syncer_for, syncer}
use innopolis_networks_s.Pools.Invariant.{Holds}
use innopolis_networks_s.Pools.Silent.{send_sync-one}
use innopolis_networks_s.Peers.Passes.{AllPasses, AllPasses-fewer}
use innopolis_networks_s.Peers.Distinct.{skipped, length-skipped, AllDistinct, AllDistinct-skipped}
use innopolis_networks_s.Pools.Skips.{IsSilent, AllPeers, syncer_for-skipped}

module _ (memcmp_eq : Value → Value → Bool) where
  AllPeers-skipped :
      (cs : List (Cell Value)) → AllPeers memcmp_eq cs → AllPeers memcmp_eq (skipped cs)
  AllPeers-skipped [] h = tt
  AllPeers-skipped (c ∷ []) h = tt
  AllPeers-skipped (c ∷ d ∷ cs) h = (h.1.0, AllPeers-skipped cs h.1.1)

  module _ (al : Allocator (Node Value)) (reinterpret : NodeFile → NetworkNode)
      (fs : List (Cell Value)) where
    pub syncer_for-one :
        (x : Answers) (xs : List Answers) (m : Memory (Node Value)) (p : Pools) (c : Cell Value)
        (node : NetworkNode)
        → IsSilent x
        → Holds m p (c ∷ []) fs
        → c.val ≡ peer node
        → memcmp_eq c.val c.val ≡ true
        → syncer_for memcmp_eq al reinterpret (x ∷ xs) 0 p m ≡ crash
    unfolding syncer_for
    syncer_for-one x xs m p c node silent h e same =
        let read = get_val_lem m p.nodepool [] [] c h.nodes in
        let on : ltb 0 p.nodepool.size ≡ true = ground (arith, h.nodes.size) in
        let found = subst (λ v. memcmp_eq v c.val ≡ true) e same in
        let lost = send_sync-one memcmp_eq al x m p fs c node silent h found in
        rw (on, read, e, lost) refl

    -- The `while` of `syncer` crashes in the end on every pool that is not empty, of nodes each equal to
    -- itself and to no one before it as `memcmp` finds, if none of them can be sent to or gives a signal
    -- that is not negative: each pass leaves half of the nodes at most, and the last one cannot be taken
    -- out. As many passes as there are nodes are enough.
    pub syncer_lem :
        (passes : List (List Answers)) (m : Memory (Node Value)) (p : Pools)
        (ns : List (Cell Value))
        → AllPasses IsSilent (length ns) passes
        → length ns ≤ length passes
        → Holds m p ns fs
        → 0 < length ns
        → AllDistinct memcmp_eq ns
        → AllPeers memcmp_eq ns
        → syncer memcmp_eq al reinterpret passes p m ≡ crash
    unfolding syncer
    syncer_lem [] m p ns silent enough h nonempty distinct peers = absurd (omega arith)
    syncer_lem (xs ∷ passes) m p [] silent enough h nonempty distinct peers = absurd (omega arith)
    syncer_lem ([] ∷ passes) m p (c ∷ []) silent enough h nonempty distinct peers =
        absurd (omega (arith, silent.0.1))
    syncer_lem ((x ∷ xs) ∷ passes) m p (c ∷ []) silent enough h nonempty distinct peers =
        rw (syncer_for-one x xs m p c peers.0.0 silent.0.0.0 h peers.0.1 distinct.0) refl
    syncer_lem (xs ∷ passes) m p (c ∷ d ∷ ns) silent enough h nonempty distinct peers =
        let len = length-skipped ns in
        Ends.seq_crash
          (syncer_for-skipped memcmp_eq al reinterpret fs xs m p (c ∷ d ∷ ns) silent.0.0 silent.0.1
            h (omega arith) distinct peers)
          λ (p', j) m' q.
            let past : ltb j p'.nodepool.size ≡ false = ground (arith, q.1) in
            rw past (
              syncer_lem passes m' p' (d ∷ skipped ns)
                (AllPasses-fewer IsSilent (suc (length (skipped ns))) (length (c ∷ d ∷ ns)) passes
                  (omega (arith, len)) silent.1)
                (omega (arith, len)) q.0 (omega arith)
                (AllDistinct-skipped memcmp_eq (c ∷ d ∷ ns) distinct)
                (AllPeers-skipped (c ∷ d ∷ ns) peers))
