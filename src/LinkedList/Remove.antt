-- ===== src/LinkedList/Remove.antt =====
-- A node is taken out of a list and freed: the common part of both versions of `deleteVal`.
use innopolis_networks_s.Base.{
  ℕ, ◌+◌, ◌<◌, ◌≡◌, refl, false, Option, none, some, List, [], ◌∷◌, ◌++◌, arith, ==_of_ne, ==_of_eq,
  length, size_dec, sym, ◌∙◌, length-append, subst,
}
use innopolis_networks_s.Memory.{Ptr, null, Memory, Cmd, write, ◌>>=◌}
use innopolis_networks_s.Memory.Access.{load-some, release-some}
use innopolis_networks_s.Memory.Ends.{Ends, ends}
use innopolis_networks_s.LinkedList.{Node, LinkedList, unlink_node, free_node, jump_to_node}
use innopolis_networks_s.LinkedList.Layout.{
  node, Cell, first_or, last_or, node_at, Chain, Apart, IsList, Chain-write, node_at_free,
  Chain-prev, Chain-next, Chain-split, Chain-join, last_or-append, node_at-append,
}
use innopolis_networks_s.LinkedList.Access.{set_next-some, set_prev-some, jump_lem}
use innopolis_networks_s.LinkedList.Splice.{Apart-last, Apart-first, last-cell}
use innopolis_networks_s.LinkedList.Cases.{snoc, first_or_back}

module _ {V : Type 0} where
  -- Only nodes of the list are written.
  abbrev pub SameElsewhere :
      List (Cell V) → (Ptr → Option (Node V)) → (Ptr → Option (Node V)) → Type 0
  SameElsewhere cs f g = (a : Ptr) → node_at a cs ≡ false → g a ≡ f a

  -- The node of `c` is out of the list and freed.
  abbrev pub Removed :
      Memory (Node V) → (xs ys : List (Cell V)) → Cell V → LinkedList → Memory (Node V) → Type 0
  Removed m xs ys c l' m' =
      IsList m' l' (xs ++ ys)
      × (m'.cell c.addr ≡ none)
      × SameElsewhere (xs ++ c ∷ ys) m.cell m'.cell

  unfoldable pub cut_node : LinkedList → ℕ → Cmd (Node V) (LinkedList × ℕ)
  cut_node l ix = do (l', current) ← unlink_node l ix; free_node l' current

  Removed-of :
      (m : Memory (Node V)) (l : LinkedList) (xs ys : List (Cell V)) (c : Cell V)
      (g : Ptr → Option (Node V)) (hd tl : Ptr)
      → IsList m l (xs ++ c ∷ ys)
      → hd ≡ first_or null (xs ++ ys)
      → tl ≡ last_or null (xs ++ ys)
      → Chain g null null (xs ++ ys)
      → g c.addr ≡ none
      → SameElsewhere (xs ++ c ∷ ys) m.cell g
      → Removed m xs ys c
          (record { head = hd; tail = tl; size = size_dec l.size })
          (record m { cell = g })
  Removed-of m l xs ys c g hd tl h eh et ch freed same =
      let len = length-append xs ys in
      let len' = length-append xs (c ∷ ys) in
      (
        record {
          head = eh;
          tail = et;
          size = omega (arith, len, len', h.size, h.fits);
          fits = omega (arith, len, len', h.fits);
          chain = ch;
          bounded = λ a le.
              let free = h.bounded a le in
              same a (node_at_free m.cell a null null (xs ++ c ∷ ys) free h.chain) ∙ free;
        },
        freed,
        same,
      )

  Apart-nil : (xs : List (Cell V)) → Apart xs []
  Apart-nil [] = tt
  Apart-nil (x ∷ xs) = (refl, Apart-nil xs)

  Apart-tail : (xs ys : List (Cell V)) (c : Cell V) → Apart xs (c ∷ ys) → Apart xs ys
  Apart-tail [] ys c h = tt
  Apart-tail (x ∷ xs) ys c h = (ground arith, Apart-tail xs ys c h.1)

  first_or_cut :
      (zs ys : List (Cell V)) (z y c : Cell V)
      → first_or null ((zs ++ z ∷ []) ++ c ∷ y ∷ ys) ≡ first_or null ((zs ++ z ∷ []) ++ y ∷ ys)
  first_or_cut [] ys z y c = refl
  first_or_cut (x ∷ zs) ys z y c = refl

  cut_front :
      (m : Memory (Node V)) (l : LinkedList) (ys : List (Cell V)) (y c : Cell V)
      → IsList m l (c ∷ y ∷ ys)
      → Ends (λ (l', r) m'. (r ≡ 0) × Removed m [] (y ∷ ys) c l' m') (cut_node l 0 m)
  unfolding cut_node unlink_node free_node write
  cut_front m l ys y c h =
      let ch = h.chain in
      let f1 = write m.cell y.addr (some (node y.val (first_or null ys) null)) in
      let back = Chain-prev m.cell c.addr null null y ys ch.3 in
      rw
        (
          h.head,
          load-some m c.addr _ ch.0 ch.1,
          set_prev-some m y.addr null _ ch.3.0 ch.3.1,
          release-some (record m { cell = f1 }) c.addr (node c.val y.addr null) ch.0 (ground arith),
        )
        (ends (
          refl,
          Removed-of m l [] (y ∷ ys) c _ y.addr l.tail h refl h.tail
              (Chain-write f1 c.addr null null none (y ∷ ys) ch.2 back) (ground arith)
              (λ a out. ground arith),
        ))

  cut_back :
      (m : Memory (Node V)) (l : LinkedList) (zs : List (Cell V)) (z c : Cell V)
      → IsList m l ((zs ++ z ∷ []) ++ c ∷ [])
      → Ends
          (λ (l', r) m'. (r ≡ 0) × Removed m (zs ++ z ∷ []) [] c l' m')
          (cut_node l (length (zs ++ z ∷ [])) m)
  unfolding cut_node unlink_node free_node write
  cut_back m l zs z c h =
      let xs = zs ++ z ∷ [] in
      let len : length xs ≡ length zs + 1 = length-append zs (z ∷ []) in
      let last : length xs ≡ size_dec l.size =
        omega (arith, length-append xs (c ∷ []), h.size, h.fits) in
      let (front, back, apart) = Chain-split m.cell null null xs (c ∷ []) h.chain in
      let zc = last-cell m.cell null c.addr zs z front in
      let tail : l.tail ≡ c.addr = h.tail ∙ last_or-append null xs (c ∷ []) in
      let f1 = write m.cell z.addr (some (node z.val null (last_or null zs))) in
      let zc_apart = Apart-last zs (c ∷ []) z apart in
      let still : f1 c.addr ≡ some (node c.val null (last_or null xs)) = ground (arith, back.1) in
      rw
        (
          ==_of_ne (length xs) 0 (omega arith),
          ==_of_eq (length xs) (size_dec l.size) last,
          tail,
          load-some m c.addr _ back.0 back.1,
          last_or-append null zs (z ∷ []),
          set_next-some m z.addr null _ zc.0 zc.1,
          release-some (record m { cell = f1 }) c.addr (node c.val null (last_or null xs)) back.0
              still,
        )
        (ends (
          refl,
          Removed-of m l xs [] c _ l.head z.addr h (h.head ∙ sym (first_or_back zs z c))
              (sym (last_or-append null xs [] ∙ last_or-append null zs (z ∷ [])))
              (Chain-join (write f1 c.addr none) null null xs []
                (Chain-write f1 c.addr null null none xs (Apart-first xs [] c apart)
                  (Chain-next m.cell null c.addr null zs z front))
                tt (Apart-nil xs))
              (ground arith)
              (λ a out. ground (arith, node_at-append a xs (c ∷ []), node_at-append a zs (z ∷ []))),
        ))

  cut_middle :
      (m : Memory (Node V)) (l : LinkedList) (zs ys : List (Cell V)) (z y c : Cell V)
      → IsList m l ((zs ++ z ∷ []) ++ c ∷ y ∷ ys)
      → Ends
          (λ (l', r) m'. (r ≡ 0) × Removed m (zs ++ z ∷ []) (y ∷ ys) c l' m')
          (cut_node l (length (zs ++ z ∷ [])) m)
  unfolding cut_node unlink_node free_node jump_to_node write
  cut_middle m l zs ys z y c h =
      let xs = zs ++ z ∷ [] in
      let len : length xs ≡ length zs + 1 = length-append zs (z ∷ []) in
      let len' = length-append xs (c ∷ y ∷ ys) in
      let (front, back, apart) = Chain-split m.cell null null xs (c ∷ y ∷ ys) h.chain in
      let apart' = Apart-tail xs (y ∷ ys) c apart in
      let zc = last-cell m.cell null c.addr zs z front in
      let z_out = Apart-last zs (c ∷ y ∷ ys) z apart in
      let z_out' : node_at z.addr (y ∷ ys) ≡ false = ground arith in
      let c_out = Apart-first xs (y ∷ ys) c apart in
      let f1 = write m.cell z.addr (some (node z.val y.addr (last_or null zs))) in
      let f2 = write f1 y.addr (some (node y.val (first_or null ys) z.addr)) in
      let back1 =
        Chain-write m.cell z.addr c.addr null (some (node z.val y.addr (last_or null zs))) (y ∷ ys)
          z_out' back.3 in
      let kept : f1 c.addr ≡ some (node c.val y.addr (last_or null xs)) = ground (arith, back.1) in
      let still : f2 c.addr ≡ some (node c.val y.addr (last_or null xs)) =
        ground (arith, back.1, back.2) in
      rw
        (
          ==_of_ne (length xs) 0 (omega arith),
          ==_of_ne (length xs) (size_dec l.size) (omega (arith, len', h.size, h.fits)),
          h.head,
          jump_lem m null null xs (c ∷ y ∷ ys) h.chain,
          load-some m c.addr _ back.0 back.1,
          last_or-append null zs (z ∷ []),
          set_next-some m z.addr y.addr _ zc.0 zc.1,
          load-some (record m { cell = f1 }) c.addr (node c.val y.addr (last_or null xs)) back.0
              kept,
          last_or-append null zs (z ∷ []),
          set_prev-some (record m { cell = f1 }) y.addr z.addr _ back1.0 back1.1,
          release-some (record m { cell = f2 }) c.addr (node c.val y.addr (last_or null xs)) back.0
              still,
        )
        (ends (
          refl,
          Removed-of m l xs (y ∷ ys) c _ _ l.tail h (first_or_cut zs ys z y c)
              (h.tail ∙ last_or-append null xs (c ∷ y ∷ ys) ∙ sym (last_or-append null xs (y ∷ ys)))
              (Chain-join (write f2 c.addr none) null null xs (y ∷ ys)
                (Chain-write f2 c.addr null y.addr none xs c_out (
                  Chain-write f1 y.addr null y.addr (some (node y.val (first_or null ys) z.addr)) xs
                    (Apart-first xs ys y apart') (Chain-next m.cell null c.addr y.addr zs z front)))
                (rw (last_or-append null zs (z ∷ [])) (
                  Chain-write f2 c.addr z.addr null none (y ∷ ys) back.2
                    (Chain-prev f1 c.addr z.addr null y ys back1)))
                apart')
              (ground arith)
              (λ a out.
                ground (arith, node_at-append a xs (c ∷ y ∷ ys), node_at-append a zs (z ∷ []))),
        ))

  abbrev Cuts : Memory (Node V) → LinkedList → Cell V → (xs ys : List (Cell V)) → Type 0
  Cuts m l c xs ys =
      IsList m l (xs ++ c ∷ ys)
      → Ends (λ (l', r) m'. (r ≡ 0) × Removed m xs ys c l' m') (cut_node l (length xs) m)

  -- every node of a list of two or more can be taken out
  pub cut_node_lem :
      (m : Memory (Node V)) (l : LinkedList) (xs ys : List (Cell V)) (c : Cell V)
      → IsList m l (xs ++ c ∷ ys)
      → 1 < length (xs ++ c ∷ ys)
      → Ends (λ (l', r) m'. (r ≡ 0) × Removed m xs ys c l' m') (cut_node l (length xs) m)
  cut_node_lem m l [] [] c h many = absurd (omega arith)
  cut_node_lem m l [] (y ∷ ys) c h many = cut_front m l ys y c h
  cut_node_lem m l (x ∷ xs) [] c h many =
      let (zs, (z, e)) = snoc x xs in subst (λ w. Cuts m l c w []) e (cut_back m l zs z c) h
  cut_node_lem m l (x ∷ xs) (y ∷ ys) c h many =
      let (zs, (z, e)) = snoc x xs in
      subst (λ w. Cuts m l c w (y ∷ ys)) e (cut_middle m l zs ys z y c) h
