-- ===== src/LinkedList/Link.antt =====
-- What is known before and after a new node is linked into a list.
use innopolis_networks_s.Base.{
  ◌+◌, ◌<◌, ◌≡◌, ◌≢◌, false, Option, some, List, ◌∷◌, ◌++◌, arith, length, size_max, size_inc, ◌∙◌,
  length-append,
}
use innopolis_networks_s.Memory.{Ptr, null, Memory}
use innopolis_networks_s.LinkedList.{Node, LinkedList}
use innopolis_networks_s.LinkedList.Layout.{
  node, Cell, first_or, last_or, node_at, Chain, IsList, node_at_free,
}

module _ {V : Type 0} where
  -- What is known of a list and of a new node before it is linked in.
  pub record Ready (m : Memory (Node V)) (l : LinkedList) (cs : List (Cell V)) (c : Cell V)
      : Type 0 where
    pub list : IsList m l cs
    pub room : length cs + 1 < size_max
    pub ne_null : c.addr ≢ null
    pub outside : node_at c.addr cs ≡ false
    pub node : m.cell c.addr ≡ some (node c.val null null)
    pub below : c.addr < m.limit

  -- Only the new node and the nodes of the list are written.
  abbrev pub SameOutside :
      List (Cell V) → Cell V → (Ptr → Option (Node V)) → (Ptr → Option (Node V)) → Type 0
  SameOutside cs c f g = (a : Ptr) → node_at a cs ≡ false → a ≢ c.addr → g a ≡ f a

  -- The new node stands between `xs` and `ys`.
  abbrev pub Linked :
      Memory (Node V) → (xs ys : List (Cell V)) → Cell V → LinkedList → Memory (Node V) → Type 0
  Linked m xs ys c l' m' = IsList m' l' (xs ++ c ∷ ys) × SameOutside (xs ++ ys) c m.cell m'.cell

  -- A list from its parts, once the writes are done.
  pub Linked-of :
      (m : Memory (Node V)) (l : LinkedList) (xs ys : List (Cell V)) (c : Cell V)
      (g : Ptr → Option (Node V)) (hd tl : Ptr)
      → Ready m l (xs ++ ys) c
      → hd ≡ first_or null (xs ++ c ∷ ys)
      → tl ≡ last_or null (xs ++ c ∷ ys)
      → Chain g null null (xs ++ c ∷ ys)
      → SameOutside (xs ++ ys) c m.cell g
      → Linked m xs ys c
          (record { head = hd; tail = tl; size = size_inc l.size })
          (record m { cell = g })
  Linked-of m l xs ys c g hd tl r eh et ch same =
      let len = length-append xs ys in
      let len' = length-append xs (c ∷ ys) in
      (
        record {
          head = eh;
          tail = et;
          size = omega (arith, len, len', r.list.size, r.room);
          fits = omega (arith, len, len', r.room);
          chain = ch;
          bounded = λ a h.
              let free = r.list.bounded a h in
              same a (node_at_free m.cell a null null (xs ++ ys) free r.list.chain)
                (omega (arith, r.below))
              ∙ free;
        },
        same,
      )
