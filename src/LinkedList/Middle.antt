-- ===== src/LinkedList/Middle.antt =====
-- A new node is linked in between two others.
use innopolis_networks_s.Base.{
  ◌+◌, ◌≡◌, refl, ◌≢◌, false, Option, some, List, [], ◌∷◌, ◌++◌, arith, ==_of_ne, length, size_inc,
  sym, ◌∙◌, length-append,
}
use innopolis_networks_s.Memory.{Ptr, null, Memory, write, done, put}
use innopolis_networks_s.Memory.Access.{load-some}
use innopolis_networks_s.Memory.Ends.{Ends, ends}
use innopolis_networks_s.LinkedList.{Node, LinkedList, insert_before, link_node, jump_to_node}
use innopolis_networks_s.LinkedList.Layout.{
  node, Cell, first_or, last_or, node_at, Chain, Chain-split, last_or-append, node_at-append,
}
use innopolis_networks_s.LinkedList.Access.{set_next-some, set_prev-some, jump_lem}
use innopolis_networks_s.LinkedList.Splice.{
  last-cell, linked, left_linked, front_linked, back_linked, back_left, spliced, Chain-spliced,
}
use innopolis_networks_s.LinkedList.Link.{Ready, SameOutside, Linked, Linked-of}

module _ {V : Type 0} where
  insert_before_lem :
      (m : Memory (Node V)) (l : LinkedList) (zs ys : List (Cell V)) (z y c : Cell V)
      → l.head ≡ first_or null ((zs ++ z ∷ []) ++ y ∷ ys)
      → Chain m.cell null null ((zs ++ z ∷ []) ++ y ∷ ys)
      → c.addr ≢ null
      → node_at c.addr (zs ++ z ∷ []) ≡ false
      → node_at c.addr (y ∷ ys) ≡ false
      → m.cell c.addr ≡ some (node c.val null null)
      → insert_before l (length (zs ++ z ∷ [])) c.addr m
        ≡ done
            (record l { size = size_inc l.size })
            (record m { cell = spliced m.cell zs ys z y c })
  unfolding insert_before jump_to_node write
  insert_before_lem m l zs ys z y c hd ch ne outx outy e =
      let f = m.cell in
      let (front, back, apart) = Chain-split f null null (zs ++ z ∷ []) (y ∷ ys) ch in
      let back' : Chain f z.addr null (y ∷ ys) = rw last_or-append at back in
      let zc =
        last-cell (linked f zs ys z y c) null y.addr zs z (front_linked f zs ys z y c front outx) in
      let yc = back_left f zs ys z y c (back_linked f zs ys z y c back' outy) apart in
      let m2 = record m { cell = linked f zs ys z y c } in
      let m3 = record m { cell = left_linked f zs ys z y c } in
      rw (
        hd,
        jump_lem m null null (zs ++ z ∷ []) (y ∷ ys) ch,
        load-some m y.addr _ back.0 back.1,
        last_or-append null zs (z ∷ []),
        set_prev-some m c.addr z.addr _ ne e,
        set_next-some (put m c.addr (some (node c.val null z.addr))) c.addr y.addr
            (node c.val null z.addr) ne (ground arith),
        set_next-some m2 z.addr c.addr _ zc.0 zc.1,
        set_prev-some m3 y.addr c.addr _ back.0 yc.1,
      )

  first_or_middle :
      (zs ys : List (Cell V)) (z y c : Cell V)
      → first_or null ((zs ++ z ∷ []) ++ y ∷ ys) ≡ first_or null ((zs ++ z ∷ []) ++ c ∷ y ∷ ys)
  first_or_middle [] ys z y c = refl
  first_or_middle (x ∷ zs) ys z y c = refl

  last_or_middle :
      (xs ys : List (Cell V)) (y c : Cell V)
      → last_or null (xs ++ y ∷ ys) ≡ last_or null (xs ++ c ∷ y ∷ ys)
  last_or_middle xs ys y c =
      last_or-append null xs (y ∷ ys) ∙ sym (last_or-append null xs (c ∷ y ∷ ys))

  spliced_same :
      (f : Ptr → Option (Node V)) (zs ys : List (Cell V)) (z y c : Cell V)
      → SameOutside ((zs ++ z ∷ []) ++ y ∷ ys) c f (spliced f zs ys z y c)
  unfolding write
  spliced_same f zs ys z y c a out ne =
      ground (arith, node_at-append a (zs ++ z ∷ []) (y ∷ ys), node_at-append a zs (z ∷ []))

  pub link_middle :
      (m : Memory (Node V)) (l : LinkedList) (zs ys : List (Cell V)) (z y c : Cell V)
      → Ready m l ((zs ++ z ∷ []) ++ y ∷ ys) c
      → Ends (Linked m (zs ++ z ∷ []) (y ∷ ys) c) (link_node l (length (zs ++ z ∷ [])) c.addr m)
  unfolding link_node write
  link_middle m l zs ys z y c r =
      let xs = zs ++ z ∷ [] in
      let len : length xs ≡ length zs + 1 = length-append zs (z ∷ []) in
      let len' = length-append xs (y ∷ ys) in
      let (front, back, apart) = Chain-split m.cell null null xs (y ∷ ys) r.list.chain in
      let back' : Chain m.cell z.addr null (y ∷ ys) = rw last_or-append at back in
      let out = node_at-append c.addr xs (y ∷ ys) in
      let outz = node_at-append c.addr zs (z ∷ []) in
      let outx : node_at c.addr xs ≡ false = ground (arith, r.outside) in
      let outy : node_at c.addr (y ∷ ys) ≡ false = ground (arith, r.outside) in
      rw
        (
          ==_of_ne l.size 0 (omega (arith, len', r.list.size)),
          ==_of_ne (length xs) 0 (omega arith),
          ==_of_ne (length xs) l.size (omega (arith, len', r.list.size)),
          insert_before_lem m l zs ys z y c r.list.head r.list.chain r.ne_null outx outy r.node,
        )
        (ends (
          Linked-of m l xs (y ∷ ys) c (spliced m.cell zs ys z y c) l.head l.tail r
            (r.list.head ∙ first_or_middle zs ys z y c) (r.list.tail ∙ last_or_middle xs ys y c)
            (Chain-spliced m.cell zs ys z y c front back' apart r.ne_null outx outy (ground arith)
              (ground arith))
            (spliced_same m.cell zs ys z y c)))
