-- ===== src/PeerToPeer/Syncer/Passes.antt =====
-- The passes of `Syncer` over a pool whose nodes do not answer.
use mathlib.Core.List.{append_assoc}
use innopolis_networks_s.Base.{
  ℕ, ◌+◌, ◌≤◌, ◌≡◌, refl, sym, subst, Bool, true, false, ltb, List, [], ◌∷◌, ◌++◌, length,
  length-append, arith,
}
use innopolis_networks_s.Memory.{Memory, Allocator, done}
use innopolis_networks_s.Memory.Ends
use innopolis_networks_s.Memory.Ends.{Ends, ends}
use innopolis_networks_s.Text.{Text}
use innopolis_networks_s.LinkedList.{Node, LinkedList}
use innopolis_networks_s.LinkedList.Layout.{Cell, IsList}
use innopolis_networks_s.LinkedList.Find.{get_val_lem}
use innopolis_networks_s.Peers.{NetworkNode}
use innopolis_networks_s.Peers.Laws.{Absent}
use innopolis_networks_s.Peers.Passes.{AllOf, AllPasses, AllPasses-fewer}
use innopolis_networks_s.Peers.Distinct.{
  skipped, length-skipped, AllAbsent, AllAbsent-nil, AllAbsent-append, AllDistinct,
  AllDistinct-skipped,
}
use innopolis_networks_s.PeerToPeer.ByteOrder.{ByteOrder}
use innopolis_networks_s.PeerToPeer.Syncer.{Answers, syncer_for, syncer}
use innopolis_networks_s.PeerToPeer.Syncer.Laws.{is_silent, send_sync-silent_first}

abbrev pub IsSilent : Answers → Type 0
IsSilent x = is_silent x ≡ true

module _ (b : ByteOrder) (strtoul : Text → ℕ) (stale_ip : Text) (stale : ℕ)
    (memcmp_eq : NetworkNode → NetworkNode → Bool) (al : Allocator (Node NetworkNode)) where
  syncer_for-past :
      (xs : List Answers) (i : ℕ) (l : LinkedList) (m : Memory (Node NetworkNode))
      → l.size ≤ i
      → syncer_for b strtoul stale_ip stale memcmp_eq al xs i l m ≡ done (l, i) m
  unfolding syncer_for
  syncer_for-past [] i l m past = refl
  syncer_for-past (x ∷ xs) i l m past = let off : ltb i l.size ≡ false = ground arith in rw off refl

  -- One round, and what comes after it.
  round_lem :
      {Q : LinkedList × ℕ → Memory (Node NetworkNode) → Type 0} (x : Answers) (more : List Answers)
      (m : Memory (Node NetworkNode)) (l : LinkedList) (xs ys : List (Cell NetworkNode))
      (c : Cell NetworkNode)
      → IsSilent x
      → IsList m l (xs ++ c ∷ ys)
      → Absent (memcmp_eq c.val) xs
      → memcmp_eq c.val c.val ≡ true
      → ((l' : LinkedList) (m' : Memory (Node NetworkNode))
          → IsList m' l' (xs ++ ys)
          → Ends Q (syncer_for b strtoul stale_ip stale memcmp_eq al more (length xs + 1) l' m'))
      → Ends Q (syncer_for b strtoul stale_ip stale memcmp_eq al (x ∷ more) (length xs) l m)
  unfolding syncer_for
  round_lem x more m l xs ys c silent h absent same after =
      let on : ltb (length xs) l.size ≡ true = ground (arith, h.size, length-append xs (c ∷ ys)) in
      let read = get_val_lem m l xs ys c h in
      rw (on, read)
        (Ends.seq
          (send_sync-silent_first b strtoul stale_ip stale memcmp_eq al x m l xs ys c h silent
            absent same)
          λ l' m' q. after l' m' q.0)

  -- The pool is `xs ++ ys`, and the loop stands at the end of `xs`.
  skips :
      (more : List Answers) (m : Memory (Node NetworkNode)) (l : LinkedList)
      (xs ys : List (Cell NetworkNode))
      → AllOf IsSilent more
      → length ys ≤ length more
      → IsList m l (xs ++ ys)
      → AllAbsent memcmp_eq xs ys
      → AllDistinct memcmp_eq ys
      → Ends
          (λ (l', j) m'. IsList m' l' (xs ++ skipped ys) × (l'.size ≤ j))
          (syncer_for b strtoul stale_ip stale memcmp_eq al more (length xs) l m)
  skips more m l xs [] silent enough h absent distinct =
      let size : l.size ≤ length xs = omega (arith, h.size, length-append xs []) in
      rw (syncer_for-past more (length xs) l m size) (ends (h, size))
  skips [] m l xs (c ∷ ys) silent enough h absent distinct = absurd (omega arith)
  skips (x ∷ more) m l xs (c ∷ []) silent enough h absent distinct =
      round_lem x more m l xs [] c silent.0 h absent.0 distinct.0 λ l' m' q.
        let size : l'.size ≤ length xs + 1 = omega (arith, q.size, length-append xs []) in
        rw (syncer_for-past more (length xs + 1) l' m' size) (ends (q, size))
  skips (x ∷ more) m l xs (c ∷ d ∷ ys) silent enough h absent distinct =
      round_lem x more m l xs (d ∷ ys) c silent.0 h absent.0 distinct.0 λ l' m' q.
        let len : length (xs ++ d ∷ []) ≡ length xs + 1 = length-append xs (d ∷ []) in
        let same = append_assoc xs (d ∷ []) ys in
        let same' = append_assoc xs (d ∷ []) (skipped ys) in
        let kept = AllAbsent-append memcmp_eq xs (d ∷ []) ys absent.1.1 distinct.2.1 in
        rw (← len, ← same')
          (skips more m' l' (xs ++ d ∷ []) ys silent.1 (omega arith)
            (subst (IsList m' l') (sym same) q) kept distinct.2.2)

  -- The `while` of `Syncer` over a pool of nodes, each equal to itself and to no one before it as `memcmp`
  -- finds, none of which can be sent to or sends its data, never crashes and empties the pool in the
  -- end: each pass leaves half of the nodes at most. As many passes as there are nodes are enough.
  pub syncer_empties :
      (passes : List (List Answers)) (m : Memory (Node NetworkNode)) (l : LinkedList)
      (ns : List (Cell NetworkNode))
      → AllPasses IsSilent (length ns) passes
      → length ns ≤ length passes
      → IsList m l ns
      → AllDistinct memcmp_eq ns
      → Ends (λ l' m'. IsList m' l' []) (syncer b strtoul stale_ip stale memcmp_eq al passes l m)
  unfolding syncer
  syncer_empties [] m l [] silent enough h distinct = ends h
  syncer_empties [] m l (c ∷ ns) silent enough h distinct = absurd (omega arith)
  syncer_empties (xs ∷ passes) m l ns silent enough h distinct =
      let len = length-skipped ns in
      Ends.seq (skips xs m l [] ns silent.0.0 silent.0.1 h (AllAbsent-nil memcmp_eq ns) distinct)
        λ (l', j) m' q.
          let past : ltb j l'.size ≡ false = ground (arith, q.1) in
          rw past (
            syncer_empties passes m' l' (skipped ns)
              (AllPasses-fewer IsSilent (length (skipped ns)) (length ns) passes
                (omega (arith, len)) silent.1)
              (omega (arith, len)) q.0 (AllDistinct-skipped memcmp_eq ns distinct))
