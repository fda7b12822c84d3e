-- ===== src/LinkedList/Tests.antt =====
-- The linked list on concrete memories.
use innopolis_networks_s.Base.{ℕ, ◌≡◌, refl, ◌==◌, none, some, [], ◌∷◌, arith, pos, ℤ, Option}
use innopolis_networks_s.Memory.{Memory, Cmd, write, done, ◌>>=◌, pure, load, store, alloc}
use innopolis_networks_s.Memory.Bump.{bump, blank}
use innopolis_networks_s.Memory.Ends.{Ends, ends}
use innopolis_networks_s.LinkedList.{
  Node, LinkedList, new_linked_list, insert_val, delete_val, delete_val_windows, get_val, find_val,
  find_loop, link_node, new_node, init_list, append_node, prepend_node, insert_before, jump,
  jump_to_node, set_next, set_prev,
}
use innopolis_networks_s.LinkedList.Layout.{node, Cell, IsList}
use innopolis_networks_s.LinkedList.Insert.{Inserted, insert_val_lem}
use innopolis_networks_s.LinkedList.Remove.{Removed}
use innopolis_networks_s.LinkedList.Delete.{delete_val_lem, DeletedAt, delete_val_windows-DeletedAt}
use innopolis_networks_s.LinkedList.Find.{position, find_val_lem}

-- insert 5, 7 behind it and 6 between them, then look at the list
script : Cmd (Node ℕ) (Option ℕ × ℤ)
script = do
  (l, _) ← insert_val (bump (Node ℕ)) new_linked_list 0 5
  (l, _) ← insert_val (bump (Node ℕ)) l 1 7
  (l, _) ← insert_val (bump (Node ℕ)) l 1 6
  middle ← get_val l 1
  place ← find_val (λ a b. a == b) l 7
  pure (middle, place)

script_runs : Ends (λ r m. r ≡ (some 6, pos 2)) (script (blank (Node ℕ)))
unfolding script insert_val link_node new_node init_list append_node prepend_node insert_before
    jump_to_node jump set_next set_prev get_val find_val find_loop load store alloc write
script_runs = ends refl

abbrev five : Cell ℕ
five = record { addr = 1; val = 5 }

abbrev six : Cell ℕ
six = record { addr = 3; val = 6 }

abbrev seven : Cell ℕ
seven = record { addr = 2; val = 7 }

abbrev memory : Memory (Node ℕ)
memory = record {
  cell =
      write (write (write (λ a. none) 1 (some (node 5 3 0))) 2 (some (node 7 0 3))) 3
        (some (node 6 2 1));
  calls = 3;
  limit = 4;
}

abbrev three : LinkedList
three = record { head = 1; tail = 2; size = 3 }

three-IsList : IsList memory three (five ∷ six ∷ seven ∷ [])
unfolding write
three-IsList = record {
  head = refl;
  tail = refl;
  size = refl;
  fits = omega arith;
  chain = (ground arith, refl, refl, (ground arith, refl, refl, (ground arith, refl, refl, tt)));
  bounded = λ a h. ground arith;
}

abbrev single : Memory (Node ℕ)
single = record { cell = write (λ a. none) 1 (some (node 5 0 0)); calls = 1; limit = 2 }

abbrev one : LinkedList
one = record { head = 1; tail = 1; size = 1 }

one-IsList : IsList single one (five ∷ [])
unfolding write
one-IsList = record {
  head = refl;
  tail = refl;
  size = refl;
  fits = omega arith;
  chain = (ground arith, refl, refl, tt);
  bounded = λ a h. ground arith;
}

insert_val_lem_example :
    Ends
      (Inserted (bump (Node ℕ)) memory three 9 (five ∷ []) (six ∷ seven ∷ []))
      (insert_val (bump (Node ℕ)) three 1 9 memory)
insert_val_lem_example =
    insert_val_lem (bump (Node ℕ)) memory three 9 (five ∷ []) (six ∷ seven ∷ []) three-IsList
      (omega arith)

delete_val_lem_example :
    Ends
      (λ (l', r) m'. (r ≡ 0) × Removed memory (five ∷ []) (seven ∷ []) six l' m')
      (delete_val three 1 memory)
delete_val_lem_example =
    delete_val_lem memory three (five ∷ []) (seven ∷ []) six three-IsList (omega arith)

find_val_lem_example :
    find_val (λ a b. a == b) three 7 memory
    ≡ done (position (λ b. 7 == b) 0 (five ∷ six ∷ seven ∷ [])) memory
find_val_lem_example =
    find_val_lem (λ a b. a == b) memory three 7 (five ∷ six ∷ seven ∷ []) three-IsList

delete_val_windows-DeletedAt_example :
    Ends (DeletedAt single one (five ∷ []) 0) (delete_val_windows one 0 single)
delete_val_windows-DeletedAt_example =
    delete_val_windows-DeletedAt single one (five ∷ []) 0 one-IsList
