-- ===== src/LinkedList/Cases.antt =====
-- How a new node is linked into a list: all cases of `insertVal`.
use innopolis_networks_s.Base.{
  subst, ◌+◌, ◌≡◌, refl, false, some, List, [], ◌∷◌, ◌++◌, arith, ==_of_ne, ==_of_eq, length, ap,
  sym, ◌∙◌, length-append,
}
use innopolis_networks_s.Memory.{null, Memory, write, put}
use innopolis_networks_s.Memory.Ends.{Ends, ends}
use innopolis_networks_s.LinkedList.{
  Node, LinkedList, init_list, append_node, prepend_node, link_node,
}
use innopolis_networks_s.LinkedList.Layout.{
  node, Cell, first_or, last_or, node_at, Chain-write, Chain-prev, Chain-next, Chain-split,
  Chain-join, last_or-append, node_at-append,
}
use innopolis_networks_s.LinkedList.Access.{set_next-some, set_prev-some}
use innopolis_networks_s.LinkedList.Splice.{Apart-cons, last-cell}
use innopolis_networks_s.LinkedList.Link.{Ready, Linked, Linked-of}
use innopolis_networks_s.LinkedList.Middle.{link_middle}

module _ {V : Type 0} where
  pub first_or_back :
      (zs : List (Cell V)) (z c : Cell V)
      → first_or null ((zs ++ z ∷ []) ++ []) ≡ first_or null ((zs ++ z ∷ []) ++ c ∷ [])
  first_or_back [] z c = refl
  first_or_back (x ∷ zs) z c = refl

  link_nil :
      (m : Memory (Node V)) (l : LinkedList) (c : Cell V)
      → Ready m l [] c
      → Ends (Linked m [] [] c) (link_node l 0 c.addr m)
  unfolding link_node init_list write
  link_nil m l c r =
      let m1 = put m c.addr (some (node c.val null null)) in
      rw
        (
          ==_of_eq l.size 0 r.list.size,
          set_prev-some m c.addr null _ r.ne_null r.node,
          set_next-some m1 c.addr null (node c.val null null) r.ne_null (ground arith),
        )
        (ends (
          Linked-of m l [] [] c _ c.addr c.addr r refl refl (r.ne_null, ground arith, refl, tt)
            (λ a out ne. ground arith)))

  link_front :
      (m : Memory (Node V)) (l : LinkedList) (ys : List (Cell V)) (y c : Cell V)
      → Ready m l (y ∷ ys) c
      → Ends (Linked m [] (y ∷ ys) c) (link_node l 0 c.addr m)
  unfolding link_node prepend_node write
  link_front m l ys y c r =
      let f1 = write m.cell c.addr (some (node c.val y.addr null)) in
      let chain1 =
        Chain-write m.cell c.addr null null (some (node c.val y.addr null)) (y ∷ ys) r.outside
          r.list.chain in
      rw
        (
          ==_of_ne l.size 0 (omega (arith, r.list.size)),
          r.list.head,
          set_next-some m c.addr y.addr _ r.ne_null r.node,
          set_prev-some (record m { cell = f1 }) y.addr c.addr _ chain1.0 chain1.1,
        )
        (ends (
          Linked-of m l [] (y ∷ ys) c _ c.addr l.tail r refl r.list.tail
            (r.ne_null, ground arith, r.outside, Chain-prev f1 null c.addr null y ys chain1)
            (λ a out ne. ground arith)))

  link_back :
      (m : Memory (Node V)) (l : LinkedList) (zs : List (Cell V)) (z c : Cell V)
      → Ready m l ((zs ++ z ∷ []) ++ []) c
      → Ends (Linked m (zs ++ z ∷ []) [] c) (link_node l (length (zs ++ z ∷ [])) c.addr m)
  unfolding link_node append_node write
  link_back m l zs z c r =
      let xs = zs ++ z ∷ [] in
      let len : length xs ≡ length zs + 1 = length-append zs (z ∷ []) in
      let size : length xs ≡ l.size = omega (arith, length-append xs [], r.list.size) in
      let (front, back, apart) = Chain-split m.cell null null xs [] r.list.chain in
      let outx : node_at c.addr xs ≡ false =
        ground (arith, r.outside, node_at-append c.addr xs []) in
      let tail : l.tail ≡ z.addr =
        r.list.tail ∙ last_or-append null xs [] ∙ last_or-append null zs (z ∷ []) in
      let f1 = write m.cell c.addr (some (node c.val null z.addr)) in
      let chain1 =
        Chain-write m.cell c.addr null null (some (node c.val null z.addr)) xs outx front in
      let zc = last-cell f1 null null zs z chain1 in
      let last : write f1 z.addr (some (node z.val c.addr (last_or null zs))) c.addr
          ≡ some (node c.val null (last_or null xs)) =
        rw (last_or-append null zs (z ∷ [])) (ground (arith, node_at-append c.addr zs (z ∷ []))) in
      rw
        (
          ==_of_ne l.size 0 (omega arith),
          ==_of_ne (length xs) 0 (omega arith),
          ==_of_eq (length xs) l.size size,
          tail,
          set_prev-some m c.addr z.addr _ r.ne_null r.node,
          set_next-some (record m { cell = f1 }) z.addr c.addr _ zc.0 zc.1,
        )
        (ends (
          Linked-of m l xs [] c _ l.head c.addr r (r.list.head ∙ first_or_back zs z c)
            (sym (last_or-append null xs (c ∷ [])))
            (Chain-join (write f1 z.addr (some (node z.val c.addr (last_or null zs)))) null null xs
              (c ∷ []) (Chain-next f1 null null c.addr zs z chain1) (r.ne_null, last, refl, tt)
              (Apart-cons xs [] c outx apart))
            (λ a out ne. ground (arith, node_at-append a xs [], node_at-append a zs (z ∷ [])))))

  pub snoc :
      (x : Cell V) (xs : List (Cell V))
      → (zs : List (Cell V)) × ((z : Cell V) × (zs ++ z ∷ [] ≡ x ∷ xs))
  snoc x [] = ([], (x, refl))
  snoc x (y ∷ xs) = let (zs, (z, e)) = snoc y xs in (x ∷ zs, (z, ap (λ w. x ∷ w) e))

  abbrev Links : Memory (Node V) → LinkedList → Cell V → (xs ys : List (Cell V)) → Type 0
  Links m l c xs ys =
      Ready m l (xs ++ ys) c → Ends (Linked m xs ys c) (link_node l (length xs) c.addr m)

  -- wherever the index points, the new node is linked in there
  pub link_node_lem :
      (m : Memory (Node V)) (l : LinkedList) (xs ys : List (Cell V)) (c : Cell V)
      → Ready m l (xs ++ ys) c
      → Ends (Linked m xs ys c) (link_node l (length xs) c.addr m)
  link_node_lem m l [] [] c r = link_nil m l c r
  link_node_lem m l [] (y ∷ ys) c r = link_front m l ys y c r
  link_node_lem m l (x ∷ xs) [] c r =
      let (zs, (z, e)) = snoc x xs in subst (λ w. Links m l c w []) e (link_back m l zs z c) r
  link_node_lem m l (x ∷ xs) (y ∷ ys) c r =
      let (zs, (z, e)) = snoc x xs in
      subst (λ w. Links m l c w (y ∷ ys)) e (link_middle m l zs ys z y c) r
