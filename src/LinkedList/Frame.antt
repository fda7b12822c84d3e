-- ===== src/LinkedList/Frame.antt =====
-- Two lists in one memory: what is done to one leaves the other alone.
use innopolis_networks_s.Base.{
  ◌≡◌, ◌≢◌, refl, ◌∙◌, false, none, some, List, [], ◌∷◌, ◌++◌, arith, ap, sym,
}
use innopolis_networks_s.Memory.{Ptr, null, Memory}
use innopolis_networks_s.Memory.Alloc.{Bounded}
use innopolis_networks_s.LinkedList.{Node, LinkedList}
use innopolis_networks_s.LinkedList.Layout.{
  node, Cell, node_at, first_or, Chain, Apart, IsList, node_at-append,
}
use innopolis_networks_s.LinkedList.Link.{SameOutside}
use innopolis_networks_s.LinkedList.Remove.{SameElsewhere}

module _ {V : Type 0} where
  -- From `m` with the list `cs` to `m'` with the list `ds`: an object outside of `cs` stays, and is no
  -- part of `ds`.
  abbrev pub Spared : Memory (Node V) → List (Cell V) → Memory (Node V) → List (Cell V) → Type 0
  Spared m cs m' ds =
      (a : Ptr) (n : Node V)
      → m.cell a ≡ some n
      → node_at a cs ≡ false
      → (m'.cell a ≡ some n) × (node_at a ds ≡ false)

  pub Spared-refl :
      (m m' : Memory (Node V)) (cs : List (Cell V)) → m'.cell ≡ m.cell → Spared m cs m' cs
  Spared-refl m m' cs e a n here out = (ap (λ f. f a) e ∙ here, out)

  pub Spared-trans :
      (m1 m2 m3 : Memory (Node V)) (bs cs ds : List (Cell V))
      → Spared m1 bs m2 cs
      → Spared m2 cs m3 ds
      → Spared m1 bs m3 ds
  Spared-trans m1 m2 m3 bs cs ds h k a n here out = let s = h a n here out in k a n s.0 s.1

  -- a new node
  pub Spared-insert :
      (m m' : Memory (Node V)) (xs ys : List (Cell V)) (c : Cell V)
      → m.cell c.addr ≡ none
      → SameOutside (xs ++ ys) c m.cell m'.cell
      → Spared m (xs ++ ys) m' (xs ++ c ∷ ys)
  Spared-insert m m' xs ys c free same a n here out =
      let ne : a ≢ c.addr = λ e. let clash : some n ≡ none = sym here ∙ ap m.cell e ∙ free in cc in
      (same a out ne ∙ here, ground (arith, node_at-append a xs ys, node_at-append a xs (c ∷ ys)))

  -- a node that is freed
  pub Spared-remove :
      (m m' : Memory (Node V)) (xs ys : List (Cell V)) (c : Cell V)
      → SameElsewhere (xs ++ c ∷ ys) m.cell m'.cell
      → Spared m (xs ++ c ∷ ys) m' (xs ++ ys)
  Spared-remove m m' xs ys c same a n here out =
      (same a out ∙ here, ground (arith, node_at-append a xs ys, node_at-append a xs (c ∷ ys)))

  Chain-Spared :
      (m m' : Memory (Node V)) (cs ds ks : List (Cell V)) (p q : Ptr)
      → Spared m cs m' ds
      → Apart ks cs
      → Chain m.cell p q ks
      → Chain m'.cell p q ks × Apart ks ds
  Chain-Spared m m' cs ds [] p q s apart h = (tt, tt)
  Chain-Spared m m' cs ds (k ∷ ks) p q s apart h =
      let (kept, out) = s k.addr (node k.val (first_or q ks) p) h.1 apart.0 in
      let rest = Chain-Spared m m' cs ds ks k.addr q s apart.1 h.3 in
      ((h.0, kept, h.2, rest.0), (out, rest.1))

  -- The other list is still there, and still apart.
  pub IsList-Spared :
      (m m' : Memory (Node V)) (k : LinkedList) (cs ds ks : List (Cell V))
      → Spared m cs m' ds
      → Apart ks cs
      → Bounded m'
      → IsList m k ks
      → IsList m' k ks × Apart ks ds
  IsList-Spared m m' k cs ds ks s apart bound h =
      let (chain, apart') = Chain-Spared m m' cs ds ks null null s apart h.chain in
      (
        record {
          head = h.head;
          tail = h.tail;
          size = h.size;
          fits = h.fits;
          chain = chain;
          bounded = bound;
        },
        apart',
      )

  Apart-head :
      (xs ys : List (Cell V)) (y : Cell V)
      → Apart xs (y ∷ ys)
      → (node_at y.addr xs ≡ false) × Apart xs ys
  Apart-head [] ys y h = (refl, tt)
  Apart-head (x ∷ xs) ys y h = let r = Apart-head xs ys y h.1 in (ground arith, (ground arith, r.1))

  pub Apart-sym : (xs ys : List (Cell V)) → Apart xs ys → Apart ys xs
  Apart-sym xs [] h = tt
  Apart-sym xs (y ∷ ys) h = let r = Apart-head xs ys y h in (r.0, Apart-sym xs ys r.1)
