-- ===== src/SocketPool/Removes.antt =====
-- What `remove_node` does to a pool whose sockets stand at the front of the array, and which socket
-- gets lost after it.
use mathlib.Core.List.{append_assoc}
use innopolis_networks_s.Base.{
  ℕ, zero, suc, ◌+◌, ◌-◌, ◌<◌, ◌≤◌, ◌≡◌, refl, ap, sym, ◌∙◌, Bool, true, false, some, List, [], ◌∷◌,
  ◌++◌, ◌==ℤ◌, ==ℤ-refl, ltb, ℤ, pos, length, length-append, get_elem?, get_elem?-append, set,
  set-append, replicate, length-replicate, arith,
}
use innopolis_networks_s.SocketPool.{Pool, shrink, search_loop, remove_node}
use innopolis_networks_s.SocketPool.Adds.{pool_of}

-- The socket is none of these.
abbrev pub Absent : ℤ → List ℤ → Type 0
Absent fd [] = Unit
Absent fd (x ∷ xs) = ((x ==ℤ fd) ≡ false) × Absent fd xs

search_lem :
    (left : ℕ) (fd : ℤ) (xs before behind : List ℤ)
    → Absent fd before
    → length before < left
    → search_loop left (length xs) fd (xs ++ (before ++ fd ∷ behind))
      ≡ some (some (length xs + length before))
unfolding search_loop
search_lem zero fd xs before behind absent h = absurd (omega arith)
search_lem (suc left) fd xs [] behind absent h =
    rw (get_elem?-append xs behind fd, ==ℤ-refl fd) (ap (λ i. some (some i)) (omega arith))
search_lem (suc left) fd xs (c ∷ before) behind (other, absent) h =
    let shift : length (xs ++ c ∷ []) ≡ length xs + 1 = length-append xs (c ∷ []) in
    let ih = search_lem left fd (xs ++ c ∷ []) before behind absent (omega arith) in
    let same = append_assoc xs (c ∷ []) (before ++ fd ∷ behind) in
    rw (get_elem?-append xs (before ++ fd ∷ behind) c, other, ← shift, ← same)
      (ih ∙ ap (λ i. some (some i)) (omega (arith, shift)))

-- the last element of an array with zeros at its end
get_elem?-last :
    (xs : List ℤ) (k i : ℕ)
    → i + 1 ≡ length xs + k
    → 0 < k
    → get_elem? (xs ++ replicate k (pos 0)) i ≡ some (pos 0)
get_elem?-last xs zero i e h = absurd (omega arith)
get_elem?-last [] (suc k) zero e h = refl
get_elem?-last [] (suc k) (suc i) e h = get_elem?-last [] k i (omega arith) (omega arith)
get_elem?-last (x ∷ xs) (suc k) zero e h = absurd (omega arith)
get_elem?-last (x ∷ xs) (suc k) (suc i) e h = get_elem?-last xs (suc k) i (omega arith) h

set_self : (xs : List ℤ) (i : ℕ) (v : ℤ) → get_elem? xs i ≡ some v → set xs i v ≡ xs
set_self [] i v h = refl
set_self (x ∷ xs) zero v h = ap (λ y. y ∷ xs) (cc)
set_self (x ∷ xs) (suc i) v h = ap (λ r. x ∷ r) (set_self xs i v h)

-- The pool with a hole where the socket stood.
abbrev pub holed : ℕ → (before behind : List ℤ) → Pool
holed size before behind = record {
  nodepool =
      (before ++ pos 0 ∷ behind) ++ replicate (size - length (before ++ pos 0 ∷ behind)) (pos 0);
  nnodes = pos (length before + length behind);
  poolsize = size;
}

pub length-middle : (xs ys : List ℤ) (c : ℤ) → length (xs ++ c ∷ ys) ≡ suc (length xs + length ys)
length-middle xs ys c = omega (arith, length-append xs (c ∷ ys))

pub length-array :
    (xs : List ℤ) (size : ℕ)
    → length xs ≤ size
    → length (xs ++ replicate (size - length xs) (pos 0)) ≡ size
length-array xs size h = omega (
  arith,
  length-append xs (replicate (size - length xs) (pos 0)),
  length-replicate (size - length xs) (pos 0),
)

module _ (size : ℕ) (before behind : List ℤ) (fd : ℤ)
    (room : length (before ++ fd ∷ behind) < size) where
  array : ℤ → List ℤ
  array c = (before ++ c ∷ behind) ++ replicate (size - length (before ++ c ∷ behind)) (pos 0)

  room_with : (c : ℤ) → length (before ++ c ∷ behind) < size
  room_with c = omega (arith, room, length-middle before behind c, length-middle before behind fd)

  find_in : Absent fd before → search_loop size 0 fd (array fd) ≡ some (some (length before))
  unfolding array
  find_in absent =
      let zs = replicate (size - length (before ++ fd ∷ behind)) (pos 0) in
      ap (search_loop size 0 fd) (append_assoc before (fd ∷ behind) zs)
      ∙ search_lem size fd [] before (behind ++ zs) absent
          (omega (arith, room, length-middle before behind fd))
      ∙ ap (λ i. some (some i)) (omega arith)

  last_in : (c : ℤ) → get_elem? (array c) (size - 1) ≡ some (pos 0)
  unfolding array
  last_in c =
      get_elem?-last (before ++ c ∷ behind) (size - length (before ++ c ∷ behind)) (size - 1)
        (omega (arith, room_with c)) (omega (arith, room_with c))

  length_in : (c : ℤ) → length (array c) ≡ size
  unfolding array
  length_in c = length-array (before ++ c ∷ behind) size (omega (arith, room_with c))

  set_in : set (array fd) (length before) (pos 0) ≡ array (pos 0)
  unfolding array
  set_in =
      let zs = λ (k : ℕ). replicate (size - k) (pos 0) in
      let k = length (before ++ fd ∷ behind) in
      let same : k ≡ length (before ++ pos 0 ∷ behind) =
        length-middle before behind fd ∙ sym (length-middle before behind (pos 0)) in
      ap (λ xs. set xs (length before) (pos 0)) (append_assoc before (fd ∷ behind) (zs k))
      ∙ set-append before (behind ++ zs k) fd (pos 0)
      ∙ sym (append_assoc before (pos 0 ∷ behind) (zs k))
      ∙ ap (λ n. (before ++ pos 0 ∷ behind) ++ zs n) same

  pub remove_node_lem :
      (works : Bool)
      → Absent fd before
      → remove_node works fd (pool_of size (before ++ fd ∷ behind))
        ≡ some (shrink works (holed size before behind))
  unfolding remove_node array
  remove_node_lem works absent =
      let inside : ltb (length before) (length (array fd)) ≡ true =
        ground (arith, length_in fd, room, length-middle before behind fd) in
      let inside' : ltb (size - 1) (length (array (pos 0))) ≡ true =
        ground (arith, length_in (pos 0), room) in
      let zero_there = set_self (array (pos 0)) (size - 1) (pos 0) (last_in (pos 0)) in
      rw
        (
          find_in absent,
          last_in fd,
          inside,
          set_in,
          inside',
          zero_there,
          length-middle before behind fd,
        )
        refl
