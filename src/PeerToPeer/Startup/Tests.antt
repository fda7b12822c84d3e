-- ===== src/PeerToPeer/Startup/Tests.antt =====
-- The start of the Windows node at concrete inputs.
use innopolis_networks_s.Base.{ℕ, refl, true, none, List, [], ◌∷◌, arith}
use innopolis_networks_s.Memory.{Memory}
use innopolis_networks_s.Memory.Ends.{Ends}
use innopolis_networks_s.Text.{Text}
use innopolis_networks_s.LinkedList.{Node}
use innopolis_networks_s.Peers.{NetworkNode}
use innopolis_networks_s.Startup.Laws.{Contacts}
use innopolis_networks_s.PeerToPeer.Startup
use innopolis_networks_s.PeerToPeer.Startup.Laws.{Connected, main_lem}
use innopolis_networks_s.Memory.Bump.{bump, bump_reliable}
use innopolis_networks_s.PeerToPeer.Startup.Contact.{Breaks, syncer_for-main}
use innopolis_networks_s.PeerToPeer.Samples.{
  intel, same, me, digit, read_digit, alice, alice-IsSendable, honest,
}

-- a user who connects to the port 5002, the node's own first port
abbrev typed : List Text
typed = (b'Y' ∷ []) ∷ (b'1' ∷ []) ∷ [] ∷ (b'x' ∷ []) ∷ []

abbrev to_5002 : Text → ℕ
to_5002 [] = 0
to_5002 (c ∷ cs) = 5002

typed-Contacts : Contacts (Startup.port_of to_5002) typed (b'1' ∷ []) 5002
typed-Contacts = record {
  undecided = [];
  ans = b'Y' ∷ [];
  zeros = [] ∷ [];
  portbuf = b'x' ∷ [];
  rest = [];
  typed_so = refl;
  none_decided = tt;
  is_yes_ans = refl;
  all_zero = (refl, tt);
  port_read = refl;
  port_valid = omega arith;
}

abbrev all_ok : Startup.Calls
all_ok = record { heap_ok = true; wsa_ok = true; listener_ok = true }

abbrev blank : Memory (Node NetworkNode)
blank = record { cell = λ a. none; calls = 0; limit = 1 }

main_lem_example :
    Ends
      (Connected (bump (Node NetworkNode)) 0 all_ok (b'1' ∷ []) 5002)
      (Startup.main (bump (Node NetworkNode)) 0 all_ok to_5002 typed blank)
main_lem_example =
    main_lem (bump (Node NetworkNode)) 0 all_ok to_5002 typed (b'1' ∷ []) 5002 blank (λ a h. refl)
      typed-Contacts refl refl refl

-- a user who connects to the port 7
abbrev typed_7 : List Text
typed_7 = (b'y' ∷ []) ∷ (b'1' ∷ []) ∷ (b'7' ∷ []) ∷ []

typed_7-Contacts : Contacts (Startup.port_of read_digit) typed_7 (b'1' ∷ []) 7
typed_7-Contacts = record {
  undecided = [];
  ans = b'y' ∷ [];
  zeros = [];
  portbuf = b'7' ∷ [];
  rest = [];
  typed_so = refl;
  none_decided = tt;
  is_yes_ans = refl;
  all_zero = tt;
  port_read = refl;
  port_valid = omega arith;
}

syncer_for-main_example :
    Ends
      (Breaks intel digit read_digit [] 0 same (bump (Node NetworkNode)) (honest ∷ []))
      (Startup.main (bump (Node NetworkNode)) 0 all_ok read_digit typed_7 blank)
syncer_for-main_example =
    syncer_for-main intel digit read_digit [] 0 same (bump (Node NetworkNode)) all_ok typed_7
      (b'1' ∷ []) 7 blank honest [] alice me (λ a h. refl) (λ (m, b, e). bump_reliable m b e)
      typed_7-Contacts refl refl refl refl refl alice-IsSendable (omega arith)
