-- ===== src/Stack/Clear.antt =====
-- The two loops over a stack: `stackClear` and `displaySatckOfInts`.
use innopolis_networks_s.Base.{
  ℕ, zero, suc, ◌+◌, ◌<◌, ◌≡◌, refl, Option, none, List, [], ◌∷◌, arith, ap, ==_of_ne, ==_of_eq,
  length, if◌then◌else◌,
}
use innopolis_networks_s.Memory.{Ptr, null, Memory, write, done}
use innopolis_networks_s.Memory.Ends
use innopolis_networks_s.Memory.Ends.{Ends, ends}
use innopolis_networks_s.Stack.{Obj, Stack, clear_loop, stack_clear, display_loop, display_stack}
use innopolis_networks_s.Stack.Layout.{Cell, values, top_of, node_at, Chain, Holds}
use innopolis_networks_s.Stack.Laws.{load_node-some, load_int-some, stack_pop-cons}

-- `f` without the nodes of a stack, all else as it was.
abbrev pub Without : List Cell → (Ptr → Option Obj) → (Ptr → Option Obj) → Type 0
Without cs f g = (a : Ptr) → g a ≡ (if node_at a cs then none else f a)

clear_loop_lem :
    (fuel : ℕ) (m : Memory Obj) (s : Stack) (cs : List Cell)
    → Holds m s cs
    → length cs < fuel
    → Ends (λ s' m'. Holds m' s' [] × Without cs m.cell m'.cell) (clear_loop fuel s m)
unfolding clear_loop write
clear_loop_lem zero m s cs h enough = absurd (omega arith)
clear_loop_lem (suc fuel) m s [] h enough = rw (==_of_eq s.size 0 h.size) (ends (h, λ a. refl))
clear_loop_lem (suc fuel) m s (c ∷ cs) h enough = rw (==_of_ne s.size 0 (omega (arith, h.size))) (
    Ends.seq (stack_pop-cons m s c cs h) λ (s', _) m' (_, (holds, cleared)).
      Ends.weaken (clear_loop_lem fuel m' s' cs holds (omega arith))
        λ t n (empty, gone). (empty, λ a. ground (arith, gone a, ap (λ f. f a) cleared, h.top)))

module _ (m : Memory Obj) (s : Stack) (cs : List Cell) where
  -- `stackClear` on a stack in memory ends within its fuel with an empty stack; it has freed each node
  -- of the stack and changed nothing else.
  pub stack_clear_lem :
      Holds m s cs → Ends (λ s' m'. Holds m' s' [] × Without cs m.cell m'.cell) (stack_clear s m)
  unfolding stack_clear
  stack_clear_lem h = clear_loop_lem (s.size + 1) m s cs h (omega (arith, h.size))

display_loop_lem :
    (fuel : ℕ) (m : Memory Obj) (cs : List Cell)
    → Chain m.cell cs
    → length cs < fuel
    → display_loop fuel (top_of cs) m ≡ done (values cs) m
unfolding display_loop
display_loop_lem zero m cs h enough = absurd (omega arith)
display_loop_lem (suc fuel) m [] h enough = refl
display_loop_lem (suc fuel) m (c ∷ cs) h enough = rw (
  ==_of_ne c.addr null h.0,
  load_node-some m c.addr _ _ h.0 h.2,
  load_int-some m c.content c.value h.1 h.3,
  display_loop_lem fuel m cs h.5 (omega arith),
)

module _ (m : Memory Obj) (s : Stack) (cs : List Cell) where
  -- The display of a stack in memory ends within its fuel, prints the values from the top down, and
  -- leaves the memory as it was.
  pub display_stack_lem : Holds m s cs → display_stack s m ≡ done (values cs) m
  unfolding display_stack
  display_stack_lem h =
      rw h.top (display_loop_lem (s.size + 1) m cs h.chain (omega (arith, h.size)))
