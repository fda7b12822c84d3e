-- ===== src/Messages/Tests.antt =====
-- A node with a port of one digit, and two files.
use innopolis_networks_s.Base.{ℕ, ◌+◌, ◌-◌, ◌≡◌, refl, none, some, List, [], ◌∷◌, arith}
use innopolis_networks_s.Text.{Text}
use innopolis_networks_s.Base.Options.{◌>>=◌}
use innopolis_networks_s.Peers.{NetworkNode}
use innopolis_networks_s.Messages.{copied_all, sync_data, node_of}
use innopolis_networks_s.Messages.RoundTrip.{IsSendable, node_of-sync_data}

abbrev digit : ℕ → Text
digit n = (n + b'0') ∷ []

abbrev read_digit : Text → ℕ
read_digit [] = 0
read_digit (c ∷ cs) = c - b'0'

abbrev alice : NetworkNode
alice = record { name = b'a' ∷ []; ipaddr = b'1' ∷ []; port = 7; stale = 0 }

alice-IsSendable : IsSendable digit read_digit alice
alice-IsSendable = record {
  name = (omega arith, tt);
  name_fits = omega arith;
  ipaddr = (omega arith, tt);
  ipaddr_fits = omega arith;
  port = (omega arith, tt);
  port_fits = omega arith;
  port_read = refl;
  in_port = omega arith;
}

abbrev names : List Text
names = (b'a' ∷ []) ∷ (b'b' ∷ b'c' ∷ []) ∷ []

node_of-sync_data_example :
    (sync_data digit alice.name alice.ipaddr alice.port (some names) [] >>= node_of read_digit 0 0)
    ≡ some (alice, names)
node_of-sync_data_example =
    node_of-sync_data digit read_digit alice names [] alice-IsSendable
      ((omega arith, tt), ((omega arith, (omega arith, tt)), tt))
      ((omega arith, tt), ((omega arith, (omega arith, tt)), tt))
      ((omega arith, tt), ((omega arith, (omega arith, tt)), tt)) (omega arith)

-- A name of a file that takes the whole of its buffer is copied past the end.
too_long :
    copied_all (
      (b'a' ∷ b'b' ∷ b'c' ∷ b'd' ∷ b'e' ∷ b'f' ∷ b'g' ∷ b'h' ∷ b'i' ∷ b'j' ∷ b'k' ∷ b'l' ∷ b'm'
        ∷ b'n' ∷ b'o' ∷ b'p' ∷ b'q' ∷ b'r' ∷ b's' ∷ b't' ∷ b'u' ∷ b'v' ∷ b'w' ∷ b'x' ∷ [])
      ∷ [])
    ≡ none
unfolding copied_all
too_long = refl
