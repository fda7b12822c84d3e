-- ===== src/DatagramServer/Threads.antt =====
-- The blocks of the threads that wait.
use innopolis_networks_s.Base.{
  ℕ, ◌+◌, ◌≡◌, ◌≢◌, refl, ap, Bool, false, ◌||◌, Option, none, some, List, [], ◌∷◌, ◌++◌, ◌==◌,
  if◌then◌else◌, arith,
}
use innopolis_networks_s.Memory.{Ptr, null, write}

abbrev pub used : Ptr → List Ptr → Bool
used p [] = false
used p (q ∷ qs) = p == q || used p qs

pub used-append : (p : Ptr) (qs rs : List Ptr) → used p (qs ++ rs) ≡ (used p qs || used p rs)
used-append p [] rs = refl
used-append p (q ∷ qs) rs = ground (arith, used-append p qs rs)

module _ {O : Type 0} where
  abbrev pub count : (O → Bool) → List O → ℕ
  count t [] = 0
  count t (o ∷ os) = (if t o then 1 else 0) + count t os

  abbrev pub tally : (O → Bool) → Option O → ℕ
  tally t none = 0
  tally t (some o) = if t o then 1 else 0

  -- the objects at these addresses, counted
  abbrev pub held : (Ptr → Option O) → (O → Bool) → List Ptr → ℕ
  held f t [] = 0
  held f t (q ∷ qs) = tally t (f q) + held f t qs

  -- Each address is in use, was not in use in `f0`, and occurs once.
  abbrev pub Blocks : (f0 f : Ptr → Option O) → List Ptr → Type 0
  Blocks f0 f [] = Unit
  Blocks f0 f (q ∷ qs) =
      (q ≢ null) × ((o : O) × (f q ≡ some o)) × (f0 q ≡ none) × (used q qs ≡ false) × Blocks f0 f qs

  pub count-append : (t : O → Bool) (xs ys : List O) → count t (xs ++ ys) ≡ count t xs + count t ys
  count-append t [] ys = omega arith
  count-append t (x ∷ xs) ys = omega (arith, count-append t xs ys)

  pub held-append :
      (f : Ptr → Option O) (t : O → Bool) (ps qs : List Ptr)
      → held f t (ps ++ qs) ≡ held f t ps + held f t qs
  held-append f t [] qs = omega arith
  held-append f t (p ∷ ps) qs = omega (arith, held-append f t ps qs)

  -- A write elsewhere changes nothing at these addresses.
  pub held-write :
      (f : Ptr → Option O) (t : O → Bool) (p : Ptr) (c : Option O) (qs : List Ptr)
      → used p qs ≡ false
      → held (write f p c) t qs ≡ held f t qs
  unfolding write
  held-write f t p c [] h = refl
  held-write f t p c (q ∷ qs) h =
      let other : q == p ≡ false = ground arith in
      rw (other, held-write f t p c qs (ground arith)) refl

  pub Blocks-write :
      (f0 f : Ptr → Option O) (p : Ptr) (c : Option O) (qs : List Ptr)
      → used p qs ≡ false
      → Blocks f0 f qs
      → Blocks f0 (write f p c) qs
  unfolding write
  Blocks-write f0 f p c [] h b = tt
  Blocks-write f0 f p c (q ∷ qs) h (ne, (o, e), new, once, b) =
      let other : q == p ≡ false = ground arith in
      (ne, (o, rw other e), new, once, Blocks-write f0 f p c qs (ground arith) b)

  -- A free address is none of them.
  pub free-unused :
      (f0 f : Ptr → Option O) (p : Ptr) (qs : List Ptr)
      → f p ≡ none
      → Blocks f0 f qs
      → used p qs ≡ false
  free-unused f0 f p [] e b = refl
  free-unused f0 f p (q ∷ qs) e (ne, (o, e'), new, once, b) =
      ground (arith, free-unused f0 f p qs e b, ap f)

  pub Blocks-snoc :
      (f0 f : Ptr → Option O) (qs : List Ptr) (p : Ptr) (o : O)
      → Blocks f0 f qs
      → used p qs ≡ false
      → p ≢ null
      → f p ≡ some o
      → f0 p ≡ none
      → Blocks f0 f (qs ++ p ∷ [])
  Blocks-snoc f0 f [] p o b h ne e new = (ne, (o, e), new, refl, tt)
  Blocks-snoc f0 f (q ∷ qs) p o (ne', e', new', once, b) h ne e new = (
    ne',
    e',
    new',
    ground (arith, used-append q qs (p ∷ [])),
    Blocks-snoc f0 f qs p o b (ground arith) ne e new,
  )

  -- One of them, and the others.
  pub record Picked (f0 f : Ptr → Option O) (ts us : List Ptr) (p : Ptr) : Type 0 where
    pub ne : p ≢ null
    pub here : O
    pub found : f p ≡ some here
    pub new : f0 p ≡ none
    pub once : used p (ts ++ us) ≡ false
    pub others : Blocks f0 f (ts ++ us)

  pub pick :
      (f0 f : Ptr → Option O) (ts us : List Ptr) (p : Ptr)
      → Blocks f0 f (ts ++ p ∷ us)
      → Picked f0 f ts us p
  pick f0 f [] us p (ne, (o, e), new, once, b) = record {
    ne = ne;
    here = o;
    found = e;
    new = new;
    once = once;
    others = b;
  }
  pick f0 f (q ∷ ts) us p (ne, e, new, once, b) =
      let k = pick f0 f ts us p b in
      record {
        ne = k.ne;
        here = k.here;
        found = k.found;
        new = k.new;
        once = ground (arith, used-append q ts (p ∷ us), k.once);
        others =
            (ne, e, new, ground (arith, used-append q ts (p ∷ us), used-append q ts us), k.others);
      }
