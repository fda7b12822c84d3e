-- ===== src/SocketPool.antt =====
-- The pool of sockets of Lab 7/code_archive.c, an array that grows and shrinks: `add_node` (lines 4 to
-- 14) and `remove_node` (16 to 35). The file declares its array and its two counters and no code that
-- makes the first array. A result `none` is an access outside of the array. `realloc` works or gives
-- NULL, which is here an array of no element. The counters are far below 2^31.
pub mod Adds
pub mod Removes
pub mod Lost
pub mod Overflow
mod Tests
use innopolis_networks_s.Base.{
  ℕ, zero, suc, ◌+◌, ◌-◌, ◌*◌, ◌/◌, Bool, true, false, Option, none, some, List, [], ◌∷◌, ◌++◌,
  ◌==◌, ltb, if◌then◌else◌, ℤ, pos, negsuc, ◌==ℤ◌, length, get_elem?, set, take, replicate,
}
use innopolis_networks_s.Base.Options.{◌>>=◌}

pub record Pool : Type 0 where
  pub nodepool : List ℤ
  pub nnodes : ℤ
  pub poolsize : ℕ

-- `nnodes--`
abbrev pub dec : ℤ → ℤ
dec (pos zero) = negsuc 0
dec (pos (suc n)) = pos n
dec (negsuc n) = negsuc (suc n)

-- `nodepool[i]` and `nodepool[i] = v`
abbrev pub read : List ℤ → ℕ → Option ℤ
read arr i = get_elem? arr i

abbrev pub write : List ℤ → ℕ → ℤ → Option (List ℤ)
write arr i v = if ltb i (length arr) then some (set arr i v) else none

-- `realloc` to `poolsize` elements of which the first `kept` are looked at; the others are 0, which is
-- what `memset` makes them where there are others.
abbrev pub reallocated : Bool → ℕ → ℕ → List ℤ → List ℤ
reallocated false kept poolsize arr = []
reallocated true kept poolsize arr = take kept arr ++ replicate (poolsize - kept) (pos 0)

-- `memset` on the NULL of a failed `realloc` is outside of the array.
abbrev pub cleared : Bool → Pool → Option Pool
cleared false p = none
cleared true p = some p

-- `works` is whether `realloc` does. The array has `n` sockets now.
abbrev pub grow : Bool → ℕ → List ℤ → ℕ → Option Pool
grow works n arr poolsize =
    if n + 2 == poolsize
    then cleared works (record {
      nodepool = reallocated works n (poolsize + 10) arr;
      nnodes = pos n;
      poolsize = poolsize + 10;
    })
    else some (record { nodepool = arr; nnodes = pos n; poolsize = poolsize })

-- The index is the number of nodes before.
abbrev pub add_at : Bool → ℤ → ℤ → Pool → Option Pool
add_at works (negsuc n) sockfd p = none
add_at works (pos n) sockfd p = do
  arr ← write p.nodepool n sockfd
  grow works (n + 1) arr p.poolsize

unfoldable pub add_node : Bool → ℤ → Pool → Option Pool
add_node works sockfd p = add_at works p.nnodes sockfd p

-- `for (int i = 0; i < poolsize; ++i)`, with `left` rounds to go, from the index `i`: the index of the
-- socket, if there is one
unfoldable pub search_loop : ℕ → ℕ → ℤ → List ℤ → Option (Option ℕ)
search_loop zero i sockfd arr = some none
search_loop (suc left) i sockfd arr =
    let rest = search_loop left (i + 1) sockfd arr in
    do fd ← read arr i; if fd ==ℤ sockfd then some (some i) else rest

-- `nnodes * 2 < poolsize`
abbrev pub is_sparse : ℤ → ℕ → Bool
is_sparse (pos n) poolsize = ltb (n * 2) poolsize
is_sparse (negsuc n) poolsize = true

abbrev pub shrink : Bool → Pool → Pool
shrink works p =
    if is_sparse p.nnodes p.poolsize
    then record p {
      nodepool = reallocated works (p.poolsize / 2) (p.poolsize / 2) p.nodepool;
      poolsize = p.poolsize / 2;
    }
    else p

abbrev pub remove_at : Bool → Option ℕ → Pool → Option Pool
remove_at works none p = some p
remove_at works (some n) p = do
  last ← read p.nodepool (p.poolsize - 1)
  arr ← write p.nodepool n last
  arr ← write arr (p.poolsize - 1) (pos 0)
  some (shrink works (record p { nodepool = arr; nnodes = dec p.nnodes }))

unfoldable pub remove_node : Bool → ℤ → Pool → Option Pool
remove_node works sockfd p = do n ← search_loop p.poolsize 0 sockfd p.nodepool; remove_at works n p

-- One call of `add_node` for each socket, with `realloc` working.
unfoldable pub add_nodes : List ℤ → Pool → Option Pool
add_nodes [] p = some p
add_nodes (fd ∷ fds) p = do q ← add_node true fd p; add_nodes fds q
