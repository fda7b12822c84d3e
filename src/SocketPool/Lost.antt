-- ===== src/SocketPool/Lost.antt =====
-- A socket that the pool loses.
use mathlib.Core.List.{append_assoc}
use innopolis_networks_s.Base.{
  ℕ, ◌+◌, ◌-◌, ◌*◌, ◌<◌, ◌≤◌, ◌≡◌, refl, ap, sym, ◌∙◌, true, false, some, List, [], ◌∷◌, ◌++◌, ◌==◌,
  ltb, ℤ, pos, length, length-append, set, set-append, replicate, arith,
}
use innopolis_networks_s.Base.Options.{◌>>=◌}
use innopolis_networks_s.SocketPool.{remove_node, add_node}
use innopolis_networks_s.SocketPool.Adds.{pool_of}
use innopolis_networks_s.SocketPool.Removes.{Absent, remove_node_lem, length-middle}

module _ (size : ℕ) (before behind : List ℤ) (last g : ℤ) where
  -- the sockets behind the hole, with the zeros behind them
  abbrev pub rest_of : List ℤ
  rest_of = replicate (size - length (before ++ pos 0 ∷ (behind ++ last ∷ []))) (pos 0)

  -- the write over the last socket
  set_last :
      set
        ((before ++ pos 0 ∷ (behind ++ last ∷ [])) ++ rest_of)
        (length before + length (behind ++ last ∷ []))
        g
      ≡ (before ++ pos 0 ∷ behind) ++ g ∷ rest_of
  set_last =
      let front = before ++ pos 0 ∷ behind in
      let at : length before + length (behind ++ last ∷ []) ≡ length front =
        omega (arith, length-append behind (last ∷ []), length-middle before behind (pos 0)) in
      let shape : (before ++ pos 0 ∷ (behind ++ last ∷ [])) ++ rest_of ≡ front ++ last ∷ rest_of =
        ap (λ xs. xs ++ rest_of) (sym (append_assoc before (pos 0 ∷ behind) (last ∷ [])))
        ∙ append_assoc front (last ∷ []) rest_of in
      rw (at, shape) (set-append front rest_of last g)

  -- Where a socket that is not the last one is removed from a pool whose sockets stand at the front of
  -- the array, with two free places at least behind the next one, and the array does not shrink, the
  -- socket that is added next is written over the last one: the array has it no more, and a 0 where the
  -- removed socket stood.
  pub add_node-remove_node :
      (fd : ℤ)
      → Absent fd before
      → length (before ++ fd ∷ (behind ++ last ∷ [])) + 2 < size
      → size ≤ (length before + length (behind ++ last ∷ [])) * 2
      → (remove_node true fd (pool_of size (before ++ fd ∷ (behind ++ last ∷ [])))
          >>= add_node true g)
        ≡ some (record {
          nodepool = (before ++ pos 0 ∷ behind) ++ g ∷ rest_of;
          nnodes = pos (length before + length (behind ++ last ∷ []) + 1);
          poolsize = size;
        })
  unfolding add_node
  add_node-remove_node fd absent room full =
      let n = length before + length (behind ++ last ∷ []) in
      let len = length-middle before (behind ++ last ∷ []) fd in
      let len' = length-middle before (behind ++ last ∷ []) (pos 0) in
      let array = (before ++ pos 0 ∷ (behind ++ last ∷ [])) ++ rest_of in
      let dense : ltb (n * 2) size ≡ false = ground arith in
      let inside : ltb n (length array) ≡ true =
        ground (arith, length-append (before ++ pos 0 ∷ (behind ++ last ∷ [])) rest_of, len') in
      let roomy : (n + 1 + 2 == size) ≡ false = ground (arith, len) in
      rw
        (
          remove_node_lem size before (behind ++ last ∷ []) fd (omega (arith, room)) true absent,
          dense,
          inside,
          set_last,
          roomy,
        )
        refl
