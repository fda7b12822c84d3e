-- ===== src/SocketPool/Adds.antt =====
-- A pool to which sockets are only added.
use mathlib.Core.List.{append_assoc, append-nil}
use innopolis_networks_s.Base.{
  ℕ, zero, suc, ◌+◌, ◌-◌, ◌<◌, ◌≡◌, refl, ap, sym, subst, ◌∙◌, true, some, List, [], ◌∷◌, ◌++◌,
  ◌==◌, ltb, ℤ, pos, length, length-append, set, set-append, replicate, length-replicate,
  take-append, arith, Bool-cases, inl, inr,
}
use innopolis_networks_s.SocketPool.{Pool, add_node, add_nodes}

-- The sockets stand at the front of the array, with zeros behind them.
abbrev pub pool_of : ℕ → List ℤ → Pool
pool_of size fds = record {
  nodepool = fds ++ replicate (size - length fds) (pos 0);
  nnodes = pos (length fds);
  poolsize = size;
}

pub replicate-pred : (n : ℕ) → 0 < n → replicate n (pos 0) ≡ pos 0 ∷ replicate (n - 1) (pos 0)
replicate-pred zero h = absurd (omega arith)
replicate-pred (suc n) h = ap (λ k. pos 0 ∷ replicate k (pos 0)) (omega arith)

-- the write at the first free place
set_next :
    (size : ℕ) (fds : List ℤ) (fd : ℤ)
    → length fds < size
    → set (fds ++ replicate (size - length fds) (pos 0)) (length fds) fd
      ≡ (fds ++ fd ∷ []) ++ replicate (size - (length fds + 1)) (pos 0)
set_next size fds fd h =
    ap (λ zs. set (fds ++ zs) (length fds) fd) (replicate-pred (size - length fds) (omega arith))
    ∙ set-append fds (replicate (size - length fds - 1) (pos 0)) (pos 0) fd
    ∙ ap (λ k. fds ++ fd ∷ replicate k (pos 0)) (omega arith)
    ∙ sym (append_assoc fds (fd ∷ []) (replicate (size - (length fds + 1)) (pos 0)))

-- A socket that is added stands behind the others, and room for two more remains.
pub add_node_lem :
    (size : ℕ) (fds : List ℤ) (fd : ℤ)
    → length fds + 2 < size
    → (size' : ℕ) × (add_node true fd (pool_of size fds) ≡ some (pool_of size' (fds ++ fd ∷ [])))
      × (length (fds ++ fd ∷ []) + 2 < size')
unfolding add_node
add_node_lem size fds fd room =
    let zs = replicate (size - length fds) (pos 0) in
    let n : length (fds ++ fd ∷ []) ≡ length fds + 1 = length-append fds (fd ∷ []) in
    let inside : ltb (length fds) (length (fds ++ zs)) ≡ true =
      ground (arith, length-append fds zs, length-replicate (size - length fds) (pos 0)) in
    elim (Bool-cases (length fds + 1 + 2 == size)) [
      | inl full ↦ (
        size + 10,
        rw (inside, full, set_next size fds fd (omega arith), ← n, take-append (fds ++ fd ∷ []))
            refl,
        ground (arith, n),
      )
      | inr free ↦
          (size, rw (inside, free, set_next size fds fd (omega arith), ← n) refl, ground (arith, n))
    ]

-- A pool to which sockets are only added, with `realloc` working and two free places at least behind
-- the next one, never accesses outside of its array: in the end it has the sockets that it had and the
-- new ones, in the order in which they came, counts them, and has room as before.
pub add_nodes_lem :
    (gs : List ℤ) (size : ℕ) (fds : List ℤ)
    → length fds + 2 < size
    → (size' : ℕ) × (add_nodes gs (pool_of size fds) ≡ some (pool_of size' (fds ++ gs)))
      × (length (fds ++ gs) + 2 < size')
unfolding add_nodes
add_nodes_lem [] size fds room =
    (size, ap (λ xs. some (pool_of size xs)) (sym (append-nil fds)), rw append-nil room)
add_nodes_lem (g ∷ gs) size fds room =
    let (size1, step, room1) = add_node_lem size fds g room in
    let (size2, steps, room2) = add_nodes_lem gs size1 (fds ++ g ∷ []) room1 in
    let same = append_assoc fds (g ∷ []) gs in
    (
      size2,
      rw step (steps ∙ ap (λ xs. some (pool_of size2 xs)) same),
      subst (λ xs. length xs + 2 < size2) same room2,
    )
