-- ===== src/Stack/Layout.antt =====
-- How a stack lies in memory.
use innopolis_networks_s.Base.{
  ◌<◌, ◌≡◌, refl, ◌≢◌, Bool, false, ◌||◌, Option, none, some, List, [], ◌∷◌, arith, ◌==◌, length,
  size_max, ℤ,
}
use innopolis_networks_s.Memory.{Ptr, null, Memory, write}
use innopolis_networks_s.Memory.Alloc.{Bounded}
use innopolis_networks_s.Stack.{Obj, stack_node, int_cell, Stack}

-- One element: its node, the integer's address, and the integer.
pub record Cell : Type 0 where
  pub addr : Ptr
  pub content : Ptr
  pub value : ℤ

abbrev pub values : List Cell → List ℤ
values [] = []
values (c ∷ cs) = c.value ∷ values cs

abbrev pub top_of : List Cell → Ptr
top_of [] = null
top_of (c ∷ cs) = c.addr

-- Whether a node of the stack stands at an address.
abbrev pub node_at : Ptr → List Cell → Bool
node_at p [] = false
node_at p (c ∷ cs) = p == c.addr || node_at p cs

-- The nodes are distinct and linked from the top down, and each has its integer.
abbrev pub Chain : (Ptr → Option Obj) → List Cell → Type 0
Chain f [] = Unit
Chain f (c ∷ cs) =
    (c.addr ≢ null)
    × (c.content ≢ null)
    × (f c.addr ≡ some (stack_node (top_of cs) c.content))
    × (f c.content ≡ some (int_cell c.value))
    × (node_at c.addr cs ≡ false)
    × Chain f cs

-- `s` stands for the elements `cs`, top first.
pub record Holds (m : Memory Obj) (s : Stack) (cs : List Cell) : Type 0 where
  pub top : s.top ≡ top_of cs
  pub size : s.size ≡ length cs
  pub fits : length cs < size_max
  pub chain : Chain m.cell cs
  pub bounded : Bounded m

-- A write spares a chain if it fills a free address, or clears a node that is no part of the chain.
pub Chain-fill :
    (f : Ptr → Option Obj) (p : Ptr) (o : Obj) (cs : List Cell)
    → f p ≡ none
    → Chain f cs
    → Chain (write f p (some o)) cs
unfolding write
Chain-fill f p o [] e h = tt
Chain-fill f p o (c ∷ cs) e h =
    (h.0, h.1, ground arith, ground arith, h.4, Chain-fill f p o cs e h.5)

pub Chain-clear :
    (f : Ptr → Option Obj) (p q d : Ptr) (cs : List Cell)
    → f p ≡ some (stack_node q d)
    → node_at p cs ≡ false
    → Chain f cs
    → Chain (write f p none) cs
unfolding write
Chain-clear f p q d [] e out h = tt
Chain-clear f p q d (c ∷ cs) e out h =
    (h.0, h.1, ground arith, ground arith, h.4, Chain-clear f p q d cs e (ground arith) h.5)

-- A free address is no node of a chain.
pub node_at_free :
    (f : Ptr → Option Obj) (p : Ptr) (cs : List Cell)
    → f p ≡ none
    → Chain f cs
    → node_at p cs ≡ false
node_at_free f p [] e h = refl
node_at_free f p (c ∷ cs) e h = ground (arith, node_at_free f p cs e h.5)
