-- ===== src/Stack.antt =====
-- The stack of Lab 1/ClientServerStack/ClientServerStack.c (lines 16 to 145). Nodes and the integers
-- that they point to are objects in memory; a `Stack` is passed by value and returned.
pub mod Layout
pub mod Laws
pub mod Push
pub mod Clear
mod Tests
use innopolis_networks_s.Base.{
  ℕ, zero, suc, ◌+◌, ◌≡◌, Bool, true, false, List, [], ◌∷◌, ◌==◌, if◌then◌else◌, ltb, ℤ, negsuc,
  pos, size_inc, size_dec,
}
use innopolis_networks_s.Memory.{
  Ptr, null, Memory, Cmd, Allocator, crash, out_of_fuel, pure, ◌>>=◌, ◌>>◌, load, release, alloc,
}

-- `block` is the storage of a `Stack` structure that the server allocates.
pub data Obj : Type 0 where
  stack_node : (prev data_ptr : Ptr) → Obj
  int_cell : ℤ → Obj
  stack_block : Obj

pub record Stack : Type 0 where
  pub bottom : Ptr
  pub top : Ptr
  pub size : ℕ

-- A `StackNode` read from memory.
pub record StackNode : Type 0 where
  pub prev : Ptr
  pub content : Ptr

as_node : Obj → Cmd Obj StackNode
as_node (stack_node q d) = pure (record { prev = q; content = d })
as_node _ = λ _. crash

as_int : Obj → Cmd Obj ℤ
as_int (int_cell v) = pure v
as_int _ = λ _. crash

unfoldable pub load_node : Ptr → Cmd Obj StackNode
unfolding as_node
load_node p = do o ← load p; as_node o

unfoldable pub load_int : Ptr → Cmd Obj ℤ
unfolding as_int
load_int p = do o ← load p; as_int o

abbrev pub empty_stack : Stack
empty_stack = record { bottom = null; top = null; size = 0 }

-- The C function returns 0 or -1; `push_failed` is its -1.
abbrev pub push_failed : ℤ
push_failed = negsuc 0

-- The two branches of `stackPush` on the size.
unfoldable pub link_top : Stack → Ptr → Stack
link_top s new_node =
    if s.size == 0
    then record { bottom = new_node; top = new_node; size = 1 }
    else record s { top = new_node; size = size_inc s.size }

module _ (al : Allocator Obj) where
  -- Both branches write the node before they return.
  unfoldable pub stack_push : Stack → Ptr → Cmd Obj (Stack × ℤ)
  stack_push s data_ptr = if data_ptr == null then pure (s, push_failed) else do
    new_node ← alloc al (stack_node (if s.size == 0 then null else s.top) data_ptr)
    pure (if new_node == null then (s, push_failed) else (link_top s new_node, pos 0))

  unfoldable pub stack_push_int : Stack → ℤ → Cmd Obj (Stack × ℤ)
  stack_push_int s val = do
    data_ptr ← alloc al (int_cell val)
    if data_ptr == null then pure (s, push_failed) else stack_push s data_ptr

unfoldable pub stack_peek : Stack → Cmd Obj Ptr
stack_peek s = if s.top == null then pure null else do n ← load_node s.top; pure n.content

unfoldable pub stack_pop : Stack → Cmd Obj (Stack × Ptr)
stack_pop s = if s.top == null then pure (s, null) else do
  picked ← stack_peek s
  old ← load_node s.top
  release s.top
  pure (record s { top = old.prev; size = size_dec s.size }, picked)

-- `while (stack->size > 0) stackPop(stack);`, on fuel.
clear_loop : ℕ → Stack → Cmd Obj Stack
clear_loop zero s = λ _. out_of_fuel
clear_loop (suc fuel) s =
    if s.size == 0 then pure s else do (s', _) ← stack_pop s; clear_loop fuel s'

-- Each round takes one off the size.
unfoldable pub stack_clear : Stack → Cmd Obj Stack
unfolding clear_loop
stack_clear s = clear_loop (s.size + 1) s

unfoldable pub stack_peek_int : Stack → Cmd Obj ℤ
stack_peek_int s = do
  picked ← stack_peek s
  if picked == null then pure (negsuc 0) else load_int picked

unfoldable pub stack_pop_int : Stack → Cmd Obj (Stack × ℤ)
stack_pop_int s = do
  (s', picked) ← stack_pop s
  if picked == null then pure (s', negsuc 0) else (do v ← load_int picked; pure (s', v))

-- `displaySatckOfInts`: the values that it prints from the top down, on fuel.
display_loop : ℕ → Ptr → Cmd Obj (List ℤ)
display_loop zero current = λ _. out_of_fuel
display_loop (suc fuel) current = if current == null then pure [] else do
  n ← load_node current
  v ← load_int n.content
  rest ← display_loop fuel n.prev
  pure (v ∷ rest)

unfoldable pub display_stack : Stack → Cmd Obj (List ℤ)
unfolding display_loop
display_stack s = display_loop (s.size + 1) s.top
