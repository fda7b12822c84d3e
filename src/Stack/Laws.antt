-- ===== src/Stack/Laws.antt =====
-- What each operation of the stack does to a stack in memory.
use innopolis_networks_s.Base.{
  ◌≡◌, refl, ◌≢◌, false, none, some, List, [], ◌∷◌, arith, ==_of_ne, ==_of_eq, size_dec, ℤ, negsuc,
}
use innopolis_networks_s.Memory.{Ptr, null, Memory, write, put, done}
use innopolis_networks_s.Memory.Ends
use innopolis_networks_s.Memory.Ends.{Ends, ends}
use innopolis_networks_s.Memory.Access.{load-some, release-some}
use innopolis_networks_s.Memory.Alloc.{Bounded-cleared}
use innopolis_networks_s.Stack.{
  Obj, stack_node, int_cell, Stack, load_node, load_int, stack_peek, stack_pop, stack_peek_int,
  stack_pop_int,
}
use innopolis_networks_s.Stack.Layout.{Cell, top_of, node_at, Holds, Chain-clear}

pub load_node-some :
    (m : Memory Obj) (p q d : Ptr)
    → p ≢ null
    → m.cell p ≡ some (stack_node q d)
    → load_node p m ≡ done (record { prev = q; content = d }) m
unfolding load_node
load_node-some m p q d ne e = rw (load-some m p _ ne e)

pub load_int-some :
    (m : Memory Obj) (p : Ptr) (v : ℤ)
    → p ≢ null
    → m.cell p ≡ some (int_cell v)
    → load_int p m ≡ done v m
unfolding load_int
load_int-some m p v ne e = rw (load-some m p _ ne e)

-- What the top pointer of a stack that is not empty leads to.
record Top (m : Memory Obj) (s : Stack) (c : Cell) (cs : List Cell) : Type 0 where
  ne_null : s.top ≢ null
  node : m.cell s.top ≡ some (stack_node (top_of cs) c.content)
  apart : node_at s.top cs ≡ false

top_lem :
    (m : Memory Obj) (s : Stack) (c : Cell) (cs : List Cell) → Holds m s (c ∷ cs) → Top m s c cs
top_lem m s c cs h = record {
  ne_null = rw h.top h.chain.0;
  node = rw h.top h.chain.2;
  apart = rw h.top h.chain.4;
}

-- After a pop the top node is gone and nothing else has changed: the integer stays in memory.
abbrev pub Popped : Memory Obj → Stack → List Cell → Stack → Memory Obj → Type 0
Popped m s cs s' m' = Holds m' s' cs × (m'.cell ≡ write m.cell s.top none)

module _ (m : Memory Obj) (s : Stack) where
  pub stack_peek-cons :
      (c : Cell) (cs : List Cell) → Holds m s (c ∷ cs) → stack_peek s m ≡ done c.content m
  unfolding stack_peek
  stack_peek-cons c cs h =
      let t = top_lem m s c cs h in
      rw (==_of_ne _ null t.ne_null, load_node-some m s.top _ _ t.ne_null t.node)

  Holds-tail :
      (c : Cell) (cs : List Cell)
      → Holds m s (c ∷ cs)
      → Holds (put m s.top none) (record s { top = top_of cs; size = size_dec s.size }) cs
  Holds-tail c cs h =
      let t = top_lem m s c cs h in
      record {
        top = refl;
        size = omega (arith, h.size, h.fits);
        fits = omega (arith, h.fits);
        chain = Chain-clear m.cell s.top _ _ cs t.node t.apart h.chain.5;
        bounded = Bounded-cleared m s.top h.bounded;
      }

  pub stack_pop-cons :
      (c : Cell) (cs : List Cell)
      → Holds m s (c ∷ cs)
      → Ends (λ (s', r) m'. (r ≡ c.content) × Popped m s cs s' m') (stack_pop s m)
  unfolding stack_pop
  stack_pop-cons c cs h =
      let t = top_lem m s c cs h in
      rw
        (
          ==_of_ne _ null t.ne_null,
          stack_peek-cons c cs h,
          load_node-some m s.top _ _ t.ne_null t.node,
          release-some m s.top _ t.ne_null t.node,
        )
        (ends (refl, (Holds-tail c cs h, refl)))

  pub stack_pop-nil : Holds m s [] → stack_pop s m ≡ done (s, null) m
  unfolding stack_pop
  stack_pop-nil h = rw (==_of_eq s.top null h.top)

  -- the integers' version of peek: the top value, and -1 of an empty stack
  pub stack_peek_int-cons :
      (c : Cell) (cs : List Cell) → Holds m s (c ∷ cs) → stack_peek_int s m ≡ done c.value m
  unfolding stack_peek_int
  stack_peek_int-cons c cs h = rw (
    stack_peek-cons c cs h,
    ==_of_ne _ null h.chain.1,
    load_int-some m c.content c.value h.chain.1 h.chain.3,
  )

  pub stack_peek_int-nil : Holds m s [] → stack_peek_int s m ≡ done (negsuc 0) m
  unfolding stack_peek_int stack_peek
  stack_peek_int-nil h = rw (==_of_eq s.top null h.top)

  -- `stackPopint` on a stack that is not empty returns the top value and leaves the rest of the stack,
  -- with the top node freed and nothing else in memory changed (`Popped`).
  pub stack_pop_int-cons :
      (c : Cell) (cs : List Cell)
      → Holds m s (c ∷ cs)
      → Ends (λ (s', r) m'. (r ≡ c.value) × Popped m s cs s' m') (stack_pop_int s m)
  unfolding stack_pop_int write
  stack_pop_int-cons c cs h =
      let t = top_lem m s c cs h in
      Ends.seq (stack_pop-cons c cs h) λ (s', r) m' (e, (holds, cleared)).
        rw
          (
            e,
            ==_of_ne _ null h.chain.1,
            load_int-some m' c.content c.value h.chain.1
                (rw cleared (ground (arith, t.node, h.chain.3))),
          )
          (ends (refl, (holds, cleared)))

  pub stack_pop_int-nil : Holds m s [] → stack_pop_int s m ≡ done (s, negsuc 0) m
  unfolding stack_pop_int
  stack_pop_int-nil h = rw (stack_pop-nil h)
