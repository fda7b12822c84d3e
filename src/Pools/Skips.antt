-- ===== src/Pools/Skips.antt =====
-- The `for` of `syncer` over a pool whose nodes do not answer: it takes nodes out of the list over which
-- it goes.
use mathlib.Core.List.{append_assoc}
use innopolis_networks_s.Base.{
  ℕ, ◌+◌, ◌<◌, ◌≤◌, ◌≡◌, sym, subst, Bool, true, false, not, ◌&&◌, ltb, List, [], ◌∷◌, ◌++◌, length,
  length-append, arith,
}
use innopolis_networks_s.Memory.{Memory, Allocator}
use innopolis_networks_s.Memory.Ends
use innopolis_networks_s.Memory.Ends.{Ends, ends}
use innopolis_networks_s.LinkedList.{Node}
use innopolis_networks_s.LinkedList.Layout.{Cell}
use innopolis_networks_s.LinkedList.Find.{get_val_lem}
use innopolis_networks_s.Peers.{NetworkNode}
use innopolis_networks_s.Peers.Laws.{Absent}
use innopolis_networks_s.Peers.Passes.{AllOf}
use innopolis_networks_s.Peers.Distinct.{skipped, AllAbsent, AllAbsent-append, AllDistinct}
use innopolis_networks_s.Pools.{NodeFile, Value, peer, Pools, Answers, no_signal, syncer_for}
use innopolis_networks_s.Pools.Invariant.{Holds}
use innopolis_networks_s.Pools.Syncer.{syncer_for-past}
use innopolis_networks_s.Pools.Silent.{send_sync-silent}

-- `send` fails, or the signal does not come or is negative.
abbrev pub IsSilent : Answers → Type 0
IsSilent x = (x.send_ok && not (no_signal x.signal)) ≡ false

module _ (memcmp_eq : Value → Value → Bool) where
  -- The values are nodes, and not files.
  abbrev pub AllPeers : List (Cell Value) → Type 0
  AllPeers [] = Unit
  AllPeers (c ∷ cs) = ((node : NetworkNode) × (c.val ≡ peer node)) × AllPeers cs

  module _ (al : Allocator (Node Value)) (reinterpret : NodeFile → NetworkNode)
      (fs : List (Cell Value)) where
    -- One round, and what comes after it.
    round_lem :
        {Q : Pools × ℕ → Memory (Node Value) → Type 0} (x : Answers) (more : List Answers)
        (m : Memory (Node Value)) (p : Pools) (xs ys : List (Cell Value)) (c : Cell Value)
        → IsSilent x
        → Holds m p (xs ++ c ∷ ys) fs
        → 1 < length (xs ++ c ∷ ys)
        → Absent (memcmp_eq c.val) xs
        → (node : NetworkNode) × (c.val ≡ peer node)
        → memcmp_eq c.val c.val ≡ true
        → ((p' : Pools) (m' : Memory (Node Value))
            → Holds m' p' (xs ++ ys) fs
            → Ends Q (syncer_for memcmp_eq al reinterpret more (length xs + 1) p' m'))
        → Ends Q (syncer_for memcmp_eq al reinterpret (x ∷ more) (length xs) p m)
    unfolding syncer_for
    round_lem x more m p xs ys c silent h many absent (node, e) same after =
        let on : ltb (length xs) p.nodepool.size ≡ true =
          ground (arith, h.nodes.size, length-append xs (c ∷ ys)) in
        let read = get_val_lem m p.nodepool xs ys c h.nodes in
        let absent' = subst (λ v. Absent (memcmp_eq v) xs) e absent in
        let same' = subst (λ v. memcmp_eq v c.val ≡ true) e same in
        rw (on, read, e)
          (Ends.seq
            (send_sync-silent memcmp_eq al x m p xs ys fs c node silent h many absent' same')
            λ p' m' q. after p' m' q.0)

    -- The pool is `xs ++ ys`, and the loop stands at the end of `xs`, which is not empty.
    skips :
        (more : List Answers) (m : Memory (Node Value)) (p : Pools) (xs ys : List (Cell Value))
        → AllOf IsSilent more
        → length ys ≤ length more
        → Holds m p (xs ++ ys) fs
        → 0 < length xs
        → AllAbsent memcmp_eq xs ys
        → AllDistinct memcmp_eq ys
        → AllPeers ys
        → Ends
            (λ (p', j) m'. Holds m' p' (xs ++ skipped ys) fs × (p'.nodepool.size ≤ j))
            (syncer_for memcmp_eq al reinterpret more (length xs) p m)
    skips more m p xs [] silent enough h some_kept absent distinct peers =
        let size : p.nodepool.size ≤ length xs = omega (arith, h.nodes.size, length-append xs []) in
        rw (syncer_for-past memcmp_eq al reinterpret more (length xs) p m size) (ends (h, size))
    skips [] m p xs (c ∷ ys) silent enough h some_kept absent distinct peers = absurd (omega arith)
    skips (x ∷ more) m p xs (c ∷ []) silent enough h some_kept absent distinct peers =
        round_lem x more m p xs [] c silent.0 h (omega (arith, length-append xs (c ∷ []))) absent.0
          peers.0 distinct.0
          λ p' m' q.
            let size : p'.nodepool.size ≤ length xs + 1 =
              omega (arith, q.nodes.size, length-append xs []) in
            rw (syncer_for-past memcmp_eq al reinterpret more (length xs + 1) p' m' size)
              (ends (q, size))
    skips (x ∷ more) m p xs (c ∷ d ∷ ys) silent enough h some_kept absent distinct peers =
        round_lem x more m p xs (d ∷ ys) c silent.0 h (omega (arith, length-append xs (c ∷ d ∷ ys)))
          absent.0 peers.0 distinct.0
          λ p' m' q.
            let len : length (xs ++ d ∷ []) ≡ length xs + 1 = length-append xs (d ∷ []) in
            let same = append_assoc xs (d ∷ []) ys in
            let same' = append_assoc xs (d ∷ []) (skipped ys) in
            let kept = AllAbsent-append memcmp_eq xs (d ∷ []) ys absent.1.1 distinct.2.1 in
            rw (← len, ← same')
              (skips more m' p' (xs ++ d ∷ []) ys silent.1 (omega arith)
                (subst (λ cs. Holds m' p' cs fs) (sym same) q) (omega (arith, len)) kept
                distinct.2.2 peers.1.1)

    -- The `for` of `syncer` over a pool of two or more nodes, each equal to itself and to no one before
    -- it as `memcmp` finds, none of which can be sent to or gives a signal that is not negative, comes to
    -- its end, takes out the first node and every second one behind it, and leaves the others in their
    -- order, and the files as they are. There is an answer for each node.
    pub syncer_for-skipped :
        (answers : List Answers) (m : Memory (Node Value)) (p : Pools) (ns : List (Cell Value))
        → AllOf IsSilent answers
        → length ns ≤ length answers
        → Holds m p ns fs
        → 1 < length ns
        → AllDistinct memcmp_eq ns
        → AllPeers ns
        → Ends
            (λ (p', j) m'. Holds m' p' (skipped ns) fs × (p'.nodepool.size ≤ j))
            (syncer_for memcmp_eq al reinterpret answers 0 p m)
    syncer_for-skipped answers m p [] silent enough h many distinct peers = absurd (omega arith)
    syncer_for-skipped answers m p (c ∷ []) silent enough h many distinct peers =
        absurd (omega arith)
    syncer_for-skipped [] m p (c ∷ d ∷ ns) silent enough h many distinct peers =
        absurd (omega arith)
    syncer_for-skipped (x ∷ answers) m p (c ∷ d ∷ ns) silent enough h many distinct peers =
        round_lem x answers m p [] (d ∷ ns) c silent.0 h many tt peers.0 distinct.0 λ p' m' q.
          skips answers m' p' (d ∷ []) ns silent.1 (omega arith) q (omega arith) distinct.2.1
            distinct.2.2 peers.1.1
