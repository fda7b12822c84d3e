-- ===== src/Startup/Laws.antt =====
-- What becomes of the address and the port that the user types.
use innopolis_networks_s.Base.{
  ℕ, ◌%◌, ◌^◌, ◌≡◌, ◌≢◌, refl, Bool, false, ◌||◌, some, List, [], ◌∷◌, ◌++◌, ==_of_ne, true, arith,
}
use innopolis_networks_s.Memory.{Memory, Allocator, done}
use innopolis_networks_s.Text.{Text}
use innopolis_networks_s.LinkedList.{Node, new_linked_list}
use innopolis_networks_s.Peers.{NetworkNode}
use innopolis_networks_s.Pools.{Value, NodeFile, Answers, syncer_for}
use innopolis_networks_s.Pools.Syncer.{syncer_for-past}
use innopolis_networks_s.Startup.{is_yes, is_no, contact, ask_port, ask_addr, ask, main}
use innopolis_networks_s.Startup

-- Each is neither a yes nor a no.
abbrev pub AllUndecided : List Text → Type 0
AllUndecided [] = Unit
AllUndecided (t ∷ ts) = ((is_yes t || is_no t) ≡ false) × AllUndecided ts

module _ (portnum : Text → ℕ) where
  -- Each is read as the port 0.
  abbrev pub AllZero : List Text → Type 0
  AllZero [] = Unit
  AllZero (t ∷ ts) = (portnum t ≡ 0) × AllZero ts

  -- The user says yes, an address, and a port.
  pub record Contacts (typed : List Text) (addr : Text) (port : ℕ) : Type 0 where
    pub undecided : List Text
    pub ans : Text
    pub zeros : List Text
    pub portbuf : Text
    pub rest : List Text
    pub typed_so : typed ≡ undecided ++ ans ∷ addr ∷ (zeros ++ portbuf ∷ rest)
    pub none_decided : AllUndecided undecided
    pub is_yes_ans : is_yes ans ≡ true
    pub all_zero : AllZero zeros
    pub port_read : portnum portbuf ≡ port
    pub port_valid : port ≢ 0

  ask_port_lem :
      (addr : Text) (zeros : List Text) (portbuf : Text) (rest : List Text)
      → AllZero zeros
      → portnum portbuf ≢ 0
      → ask_port portnum addr (zeros ++ portbuf ∷ rest) ≡ contact addr (portnum portbuf)
  unfolding ask_port
  ask_port_lem addr [] portbuf rest h ne = rw (==_of_ne _ 0 ne) refl
  ask_port_lem addr (t ∷ ts) portbuf rest (z, h) ne = rw z (ask_port_lem addr ts portbuf rest h ne)

  ask_lem :
      (undecided : List Text) (ans addr : Text) (typed : List Text)
      → AllUndecided undecided
      → is_yes ans ≡ true
      → ask portnum (undecided ++ ans ∷ addr ∷ typed) ≡ ask_port portnum addr typed
  unfolding ask
  ask_lem [] ans addr typed h y = rw y refl
  ask_lem (t ∷ ts) ans addr typed (u, h) y =
      let not_yes : is_yes t ≡ false = ground arith in
      let not_no : is_no t ≡ false = ground arith in
      rw (not_yes, not_no) (ask_lem ts ans addr typed h y)

  pub ask-Contacts :
      (typed : List Text) (addr : Text) (port : ℕ)
      → Contacts typed addr port
      → ask portnum typed ≡ contact addr port
  ask-Contacts typed addr port h =
      let end =
        ask_port_lem addr h.zeros h.portbuf h.rest h.all_zero (rw h.port_read h.port_valid) in
      rw
        (
          h.typed_so,
          ask_lem h.undecided h.ans addr (h.zeros ++ h.portbuf ∷ h.rest) h.none_decided
              h.is_yes_ans,
          end,
          h.port_read,
        )
        refl

-- A node of Lab 7 whose user says yes and gives an address and a port starts all the same with a pool
-- over which the `for` of its syncer makes no round and changes nothing, whatever a peer would answer.
pub main-syncer_for :
    (strtoul : Text → ℕ) (typed : List Text) (addr : Text) (port : ℕ)
    (memcmp_eq : Value → Value → Bool) (al : Allocator (Node Value))
    (reinterpret : NodeFile → NetworkNode) (xs : List Answers) (m : Memory (Node Value))
    → Contacts (λ portbuf. strtoul portbuf % 2 ^ 16) typed addr port
    → (node : Startup.Node) × (main strtoul typed ≡ some node)
      × (syncer_for memcmp_eq al reinterpret xs 0 node.pools m ≡ done (node.pools, 0) m)
unfolding main
main-syncer_for strtoul typed addr port memcmp_eq al reinterpret xs m h =
    let node : Startup.Node = record {
      pools = record { nodepool = new_linked_list; filepool = new_linked_list };
      main_port = 0;
    } in
    let told : main strtoul typed ≡ some node = rw (ask-Contacts _ typed addr port h) refl in
    (node, told, syncer_for-past memcmp_eq al reinterpret xs 0 node.pools m (omega arith))
