-- ===== src/Startup.antt =====
-- `main` of Lab 7/node.c (lines 421 to 464): what the user types, and the pools with which the threads
-- start. The directory to share and the threads themselves are left out.
pub mod Laws
mod Tests
use innopolis_networks_s.Base.{
  ℕ, ◌%◌, ◌^◌, ◌==◌, Bool, ◌||◌, Option, none, some, List, [], ◌∷◌, if◌then◌else◌,
}
use innopolis_networks_s.Text.{Text}
use innopolis_networks_s.LinkedList.{new_linked_list}
use innopolis_networks_s.Pools.{Pools}

-- What the user has said: nothing final yet, not to connect, or an address and a port.
pub data Answer : Type 0 where
  waiting : Answer
  alone : Answer
  contact : (addr : Text) → (port : ℕ) → Answer

-- `ans[0]`
abbrev pub first_byte : Text → ℕ
first_byte [] = 0
first_byte (b ∷ bs) = b

abbrev pub is_yes : Text → Bool
is_yes ans = first_byte ans == b'y' || first_byte ans == b'Y'

abbrev pub is_no : Text → Bool
is_no ans = first_byte ans == b'n' || first_byte ans == b'N'

-- The list is what the calls of `scanf` give one after the other; each text fits its buffer.
module _ (portnum : Text → ℕ) where
  -- `while (port == 0)`
  unfoldable pub ask_port : Text → List Text → Answer
  ask_port addr [] = waiting
  ask_port addr (portbuf ∷ typed) =
      let rest = ask_port addr typed in
      if portnum portbuf == 0 then rest else contact addr (portnum portbuf)

  abbrev pub ask_addr : List Text → Answer
  ask_addr [] = waiting
  ask_addr (addr ∷ typed) = ask_port addr typed

  -- `while (!decided)`
  unfoldable pub ask : List Text → Answer
  ask [] = waiting
  ask (ans ∷ typed) =
      let rest = ask typed in
      if is_yes ans then ask_addr typed else if is_no ans then alone else rest

pub record Node : Type 0 where
  pub pools : Pools
  pub main_port : ℕ

-- Once the user has decided; `main_port` has no other value than the 0 of a global variable.
abbrev pub started : Answer → Option Node
started waiting = none
started _ = some (record {
  pools = record { nodepool = new_linked_list; filepool = new_linked_list };
  main_port = 0;
})

-- `(in_port_t) strtoul(portbuf, NULL, 0)`
unfoldable pub main : (strtoul : Text → ℕ) → List Text → Option Node
main strtoul typed = started (ask (λ portbuf. strtoul portbuf % 2 ^ 16) typed)
