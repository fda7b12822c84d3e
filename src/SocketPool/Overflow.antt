-- ===== src/SocketPool/Overflow.antt =====
-- A pool that has shrunk.
use innopolis_networks_s.Base.{
  ℕ, ◌+◌, ◌-◌, ◌*◌, ◌/◌, ◌<◌, ◌≤◌, ◌≡◌, refl, true, false, none, List, [], ◌∷◌, ◌++◌, ◌==◌, ltb, ℤ,
  pos, length, length-append, length-set, length-take, length-replicate, set, take, replicate,
  arith, Bool-cases, inl, inr,
}
use innopolis_networks_s.Base.Options.{◌>>=◌}
use innopolis_networks_s.SocketPool.{remove_node, add_node, add_nodes}
use innopolis_networks_s.SocketPool.Adds.{pool_of}
use innopolis_networks_s.SocketPool.Removes.{Absent, remove_node_lem, length-middle, length-array}

-- The test for growing is missed once there are fewer than two free places behind the next one.
missed :
    (gs : List ℤ) (arr : List ℤ) (n : ℕ)
    → n ≤ length arr
    → length arr < n + 3
    → length arr < n + length gs
    → add_nodes gs (record { nodepool = arr; nnodes = pos n; poolsize = length arr }) ≡ none
unfolding add_nodes add_node
missed [] arr n h near over = absurd (omega arith)
missed (g ∷ gs) arr n h near over = elim (Bool-cases (ltb n (length arr))) [
  | inr out ↦ rw out refl
  | inl inside ↦
      let same = length-set arr n g in
      let no_growth : (n + 1 + 2 == length arr) ≡ false = ground arith in
      let ih =
        missed gs (set arr n g) (n + 1) (ground (arith, same)) (omega (arith, same))
          (omega (arith, same)) in
      rw (inside, no_growth) (rw same at ih)
]

-- Where a socket is removed from a pool whose sockets stand at the front of the array, the array shrinks
-- to half its size, and then fewer than two places are free behind the next one, the pool does not grow
-- again: adding more sockets than places are left writes past the end of the array.
pub add_nodes-remove_node :
    (size : ℕ) (before behind : List ℤ) (fd : ℤ) (gs : List ℤ)
    → Absent fd before
    → length (before ++ fd ∷ behind) < size
    → (length before + length behind) * 2 < size
    → size / 2 < length before + length behind + 3
    → size / 2 < length before + length behind + length gs
    → (remove_node true fd (pool_of size (before ++ fd ∷ behind)) >>= add_nodes gs) ≡ none
add_nodes-remove_node size before behind fd gs absent room sparse near over =
    let n = length before + length behind in
    let half = size / 2 in
    let xs = before ++ pos 0 ∷ behind in
    let arr =
      take half (xs ++ replicate (size - length xs) (pos 0)) ++ replicate (half - half) (pos 0) in
    let shrinks : ltb (n * 2) size ≡ true = ground arith in
    let len : length arr ≡ half = omega (
      arith,
      length-append (take half (xs ++ replicate (size - length xs) (pos 0)))
          (replicate (half - half) (pos 0)),
      length-replicate (half - half) (pos 0),
      length-take half (xs ++ replicate (size - length xs) (pos 0)),
      length-array xs size (
          omega (arith, room, length-middle before behind fd, length-middle before behind (pos 0))),
    ) in
    let past = missed gs arr n (omega (arith, len)) (omega (arith, len)) (omega (arith, len)) in
    rw (remove_node_lem size before behind fd room true absent, shrinks) (rw len at past)
