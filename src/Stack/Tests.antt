-- ===== src/Stack/Tests.antt =====
-- The stack on concrete memories.
use innopolis_networks_s.Base.{◌≡◌, refl, none, some, List, [], ◌∷◌, arith, ℤ, pos}
use innopolis_networks_s.Memory.{Memory, write, ◌>>=◌, pure, load, release, alloc, Cmd}
use innopolis_networks_s.Memory.Bump.{bump, blank}
use innopolis_networks_s.Memory.Ends.{Ends, ends}
use innopolis_networks_s.Stack.{
  Obj, int_cell, stack_node, Stack, empty_stack, stack_push_int, stack_pop_int, stack_clear,
  stack_peek_int, display_stack, stack_push, stack_pop, link_top, stack_peek, load_node, load_int,
}
use innopolis_networks_s.Stack.Layout.{Cell, Holds}
use innopolis_networks_s.Stack.Clear.{Without, stack_clear_lem}

-- push 5, push 7, display, pop, peek
script : Cmd Obj (List ℤ × ℤ × ℤ)
script = do
  (s, _) ← stack_push_int (bump Obj) empty_stack (pos 5)
  (s, _) ← stack_push_int (bump Obj) s (pos 7)
  shown ← display_stack s
  (s, popped) ← stack_pop_int s
  top ← stack_peek_int s
  pure (shown, popped, top)

script_runs : Ends (λ r m. r ≡ (pos 7 ∷ pos 5 ∷ [], pos 7, pos 5)) (script (blank Obj))
unfolding script stack_push_int stack_push alloc write link_top display_stack load_node load_int
    load stack_pop_int stack_pop stack_peek release stack_peek_int
script_runs = ends refl

-- a memory with a stack of two: nodes at 2 and 4, integers at 1 and 3
abbrev memory : Memory Obj
memory = record {
  cell =
      write
        (write (write (write (λ a. none) 1 (some (int_cell (pos 5)))) 2 (some (stack_node 0 1))) 3
          (some (int_cell (pos 7))))
        4 (some (stack_node 2 3));
  calls = 4;
  limit = 5;
}

abbrev stack : Stack
stack = record { bottom = 2; top = 4; size = 2 }

abbrev five : Cell
five = record { addr = 2; content = 1; value = pos 5 }

abbrev seven : Cell
seven = record { addr = 4; content = 3; value = pos 7 }

abbrev cells : List Cell
cells = seven ∷ five ∷ []

stack-Holds : Holds memory stack cells
unfolding write
stack-Holds = record {
  top = refl;
  size = refl;
  fits = omega arith;
  chain = (
    ground arith,
    ground arith,
    refl,
    refl,
    refl,
    (ground arith, ground arith, refl, refl, refl, tt),
  );
  bounded = λ a h. ground arith;
}

stack_clear_lem_example :
    Ends (λ s' m'. Holds m' s' [] × Without cells memory.cell m'.cell) (stack_clear stack memory)
stack_clear_lem_example = stack_clear_lem memory stack cells stack-Holds
