-- ===== src/PeerToPeer/Pool/Laws.antt =====
-- What becomes of the pool of nodes when a node does not answer.
use innopolis_networks_s.Base.{
  ◌⊎◌, ◌≡◌, refl, sym, subst, Bool, true, List, ◌∷◌, ◌++◌, Bool-cases, inl, inr,
}
use innopolis_networks_s.Memory.{Memory}
use innopolis_networks_s.Memory.Ends
use innopolis_networks_s.Memory.Ends.{Ends, ends}
use innopolis_networks_s.LinkedList.{Node, LinkedList}
use innopolis_networks_s.LinkedList.Layout.{Cell, IsList}
use innopolis_networks_s.LinkedList.Find.{find_val_lem}
use innopolis_networks_s.LinkedList.Remove.{Removed}
use innopolis_networks_s.LinkedList.Delete.{delete_val_windows_lem}
use innopolis_networks_s.Peers.Laws.{Absent, position-first, position-none}
use innopolis_networks_s.Peers.Pool.{known, known-Found, Absent-known}
use innopolis_networks_s.PeerToPeer.Pool.{remove_inactive_node}

module _ {V : Type 0} where
  -- The first element that satisfies the test has gone, or there is none and nothing has changed.
  abbrev pub Dropped :
      (V → Bool)
      → Memory (Node V)
      → LinkedList
      → List (Cell V)
      → LinkedList
      → Memory (Node V)
      → Type 0
  Dropped p m l cs l' m' =
      ((xs : List (Cell V)) × (ys : List (Cell V)) × (c : Cell V) × (cs ≡ xs ++ c ∷ ys)
        × Absent p xs
        × (p c.val ≡ true)
        × Removed m xs ys c l' m')
      ⊎ (Absent p cs × (l' ≡ l) × (m' ≡ m))

  module _ (memcmp_eq : V → V → Bool) (m : Memory (Node V)) (l : LinkedList) (node : V) where
    -- The first node that `memcmp` finds equal to the one that does not answer is taken out.
    pub remove_first :
        (xs ys : List (Cell V)) (c : Cell V)
        → IsList m l (xs ++ c ∷ ys)
        → Absent (memcmp_eq node) xs
        → memcmp_eq node c.val ≡ true
        → Ends (Removed m xs ys c) (remove_inactive_node memcmp_eq l node m)
    unfolding remove_inactive_node
    remove_first xs ys c h absent found =
        rw
          (
            find_val_lem memcmp_eq m l node (xs ++ c ∷ ys) h,
            position-first (memcmp_eq node) xs ys c absent found,
          )
          (Ends.seq (delete_val_windows_lem m l xs ys c h) λ (l', r) m' q. ends q.1)

    -- `RemoveInactiveNode` never crashes on a pool in memory, a pool of one node or none included: it
    -- deletes the first node that `memcmp` finds equal to the one that does not answer, and that node
    -- only, or changes nothing if there is none (`Dropped`).
    pub remove_inactive_node-Dropped :
        (cs : List (Cell V))
        → IsList m l cs
        → Ends (Dropped (memcmp_eq node) m l cs) (remove_inactive_node memcmp_eq l node m)
    unfolding remove_inactive_node
    remove_inactive_node-Dropped cs h = elim (Bool-cases (known (memcmp_eq node) cs)) [
      | inl e ↦
          let f = known-Found (memcmp_eq node) cs e in
          subst
            (λ ds. Ends (Dropped (memcmp_eq node) m l ds) (remove_inactive_node memcmp_eq l node m))
            (sym f.whole)
            (Ends.weaken
              (remove_first f.before f.behind f.here (subst (IsList m l) f.whole h) f.absent
                f.found)
              λ l' m' q. inl (f.before, f.behind, f.here, refl, f.absent, f.found, q))
      | inr e ↦
          let absent = Absent-known (memcmp_eq node) cs e in
          rw (find_val_lem memcmp_eq m l node cs h, position-none (memcmp_eq node) 0 cs absent)
            (ends (inr (absent, refl, refl)))
    ]
