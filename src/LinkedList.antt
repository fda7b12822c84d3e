-- ===== src/LinkedList.antt =====
-- The doubly linked list of Lab 7/linkedlist.c and of Lab 7 Windows/PeerToPeer/linkedlist.c, which
-- differ in `deleteVal` alone. `V` is the type of the `void *` values; `memcmp` is a parameter.
pub mod Access
pub mod Layout
pub mod Splice
pub mod Link
pub mod Middle
pub mod Cases
pub mod Insert
pub mod Remove
pub mod Delete
pub mod Find
pub mod Frame
mod Tests
use innopolis_networks_s.Base.{
  ℕ, zero, suc, ◌+◌, ◌-◌, Bool, true, false, not, ◌&&◌, ◌||◌, Option, none, some, ◌==◌, ltb, leb,
  if◌then◌else◌, ℤ, pos, negsuc, size_inc, size_dec,
}
use innopolis_networks_s.Memory.{
  Ptr, null, Cmd, Allocator, pure, ◌>>=◌, ◌>>◌, load, store, release, alloc,
}

pub record Node (V : Type 0) : Type 0 where
  pub val : V
  pub next : Ptr
  pub prev : Ptr

pub record LinkedList : Type 0 where
  pub head : Ptr
  pub tail : Ptr
  pub size : ℕ

abbrev pub new_linked_list : LinkedList
new_linked_list = record { head = null; tail = null; size = 0 }

module _ {V : Type 0} where
  -- `p->next = q` and `p->prev = q`
  unfoldable pub set_next : Ptr → Ptr → Cmd (Node V) (Unit {0})
  set_next p q = do n ← load p; store p (record n { next = q })

  unfoldable pub set_prev : Ptr → Ptr → Cmd (Node V) (Unit {0})
  set_prev p q = do n ← load p; store p (record n { prev = q })

  unfoldable pub new_node : Allocator (Node V) → V → Cmd (Node V) Ptr
  new_node al val = alloc al (record { val = val; next = null; prev = null })

  unfoldable pub init_list : LinkedList → Ptr → Cmd (Node V) LinkedList
  init_list list node = do
    set_prev node null
    set_next node null
    pure (record { head = node; tail = node; size = size_inc list.size })

  -- `for (i = 0; i < ix; ++i) current = current->next`
  unfoldable pub jump : ℕ → Ptr → Cmd (Node V) Ptr
  jump zero current = pure current
  jump (suc left) current = do n ← load current; jump left n.next

  unfoldable pub jump_to_node : LinkedList → ℕ → Cmd (Node V) Ptr
  jump_to_node list ix = jump ix list.head

  unfoldable pub append_node : LinkedList → Ptr → Cmd (Node V) LinkedList
  append_node list node = do
    set_prev node list.tail
    set_next list.tail node
    pure (record list { tail = node; size = size_inc list.size })

  unfoldable pub prepend_node : LinkedList → Ptr → Cmd (Node V) LinkedList
  prepend_node list node = do
    set_next node list.head
    set_prev list.head node
    pure (record list { head = node; size = size_inc list.size })

  -- The last part of `insertVal`: before the node at `ix`, which has one before it. `current->prev` is
  -- read once, since the writes before its second use are to `node`.
  unfoldable pub insert_before : LinkedList → ℕ → Ptr → Cmd (Node V) LinkedList
  insert_before list ix node = do
    current ← jump_to_node list ix
    c ← load current
    set_prev node c.prev
    set_next node current
    set_next c.prev node
    set_prev current node
    pure (record list { size = size_inc list.size })

  -- The chain of cases once the node is there.
  unfoldable pub link_node : LinkedList → ℕ → Ptr → Cmd (Node V) LinkedList
  link_node list ix node =
      if list.size == 0
      then init_list list node
      else if ix == 0
      then prepend_node list node
      else if ix == list.size
      then append_node list node
      else insert_before list ix node

  -- The result is the C function's: 0 if it worked, 1 if not.
  unfoldable pub insert_val :
      Allocator (Node V) → LinkedList → ℕ → V → Cmd (Node V) (LinkedList × ℕ)
  insert_val al list ix val =
      if ltb list.size ix && not (list.size == 0) then pure (list, 1) else do
        node ← new_node al val
        if node == null
            then pure (list, 1)
            else (do list' ← link_node list ix node; pure (list', 0))

  -- The three cases of `deleteVal`: the node to free, and the list without it.
  unfoldable pub unlink_node : LinkedList → ℕ → Cmd (Node V) (LinkedList × Ptr)
  unlink_node list ix =
      if ix == 0
      then (do
        c ← load list.head
        set_prev c.next null
        pure (record list { head = c.next }, list.head))
      else if ix == size_dec list.size
      then (do
        c ← load list.tail
        set_next c.prev null
        pure (record list { tail = c.prev }, list.tail))
      else (do
        current ← jump_to_node list ix
        c ← load current
        set_next c.prev c.next
        d ← load current
        set_prev d.next d.prev
        pure (list, current))

  unfoldable pub free_node : LinkedList → Ptr → Cmd (Node V) (LinkedList × ℕ)
  free_node list current = do release current; pure (record list { size = size_dec list.size }, 0)

  -- `deleteVal` of Lab 7
  unfoldable pub delete_val : LinkedList → ℕ → Cmd (Node V) (LinkedList × ℕ)
  delete_val list ix =
      if leb list.size ix && not (list.size == 0)
      then pure (list, 1)
      else do (list', current) ← unlink_node list ix; free_node list' current

  -- `deleteVal` of Lab 7 Windows, which has a case for a list of one
  unfoldable pub delete_val_windows : LinkedList → ℕ → Cmd (Node V) (LinkedList × ℕ)
  delete_val_windows list ix =
      if leb list.size ix
      then pure (list, 1)
      else if list.size == 1
      then (do release list.head; pure (new_linked_list, 0))
      else (do (list', current) ← unlink_node list ix; free_node list' current)

  -- `none` is the C function's 0.
  unfoldable pub get_val : LinkedList → ℕ → Cmd (Node V) (Option V)
  get_val list ix =
      if leb list.size ix && not (list.size == 0)
      then pure none
      else do current ← jump_to_node list ix; n ← load current; pure (some n.val)

  module _ (memcmp_eq : V → V → Bool) where
    -- `left` rounds to go, from the index `i`
    unfoldable pub find_loop : V → ℕ → ℕ → Ptr → Cmd (Node V) ℤ
    find_loop val zero i current = pure (negsuc 0)
    find_loop val (suc left) i current = do
      n ← load current
      let rest : Cmd (Node V) ℤ = find_loop val left (i + 1) n.next
      if memcmp_eq val n.val then pure (pos i) else rest

    unfoldable pub find_val : LinkedList → V → Cmd (Node V) ℤ
    find_val list val = find_loop val list.size 0 list.head
