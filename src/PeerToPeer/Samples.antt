-- ===== src/PeerToPeer/Samples.antt =====
-- Test data for the Windows node.
use innopolis_networks_s.Base.{
  ℕ, ◌+◌, ◌-◌, ◌*◌, ◌/◌, ◌%◌, ◌<◌, ◌^◌, ◌≡◌, ◌==◌, refl, Bool, true, [], ◌∷◌, arith,
}
use innopolis_networks_s.Text.{Text}
use innopolis_networks_s.Socket.{got}
use innopolis_networks_s.Messages.{node_data}
use innopolis_networks_s.Messages.RoundTrip.{IsSendable}
use innopolis_networks_s.Peers.{NetworkNode}
use innopolis_networks_s.PeerToPeer.ByteOrder.{ByteOrder}
use innopolis_networks_s.PeerToPeer.Syncer.{Answers}

-- the four bytes the other way round
abbrev pub swap : ℕ → ℕ
swap n = n % 256 * 16777216 + n / 256 % 256 * 65536 + n / 65536 % 256 * 256 + n / 16777216 % 256

pub swap-swap : (n : ℕ) → n < 2 ^ 32 → swap (swap n) ≡ n
swap-swap n h = omega arith

abbrev pub intel : ByteOrder
intel = record { htonl = swap; ntohl = swap; ntohl_htonl = swap-swap; htonl_zero = refl }

abbrev pub same : NetworkNode → NetworkNode → Bool
same a c = a.port == c.port

abbrev pub me : Text
me = b'm' ∷ b':' ∷ []

abbrev pub digit : ℕ → Text
digit n = (n + b'0') ∷ []

abbrev pub read_digit : Text → ℕ
read_digit [] = 0
read_digit (c ∷ cs) = c - b'0'

abbrev pub alice : NetworkNode
alice = record {
  name = b'a' ∷ [];
  ipaddr = b'1' ∷ b'.' ∷ b'2' ∷ b'.' ∷ b'3' ∷ b'.' ∷ b'4' ∷ [];
  port = 7;
  stale = 0;
}

pub alice-IsSendable : IsSendable digit read_digit alice
alice-IsSendable = record {
  name = (omega arith, tt);
  name_fits = omega arith;
  ipaddr = (
    omega arith,
    (omega arith, (omega arith, (omega arith, (omega arith, (omega arith, (omega arith, tt)))))),
  );
  ipaddr_fits = omega arith;
  port = (omega arith, tt);
  port_fits = omega arith;
  port_read = refl;
  in_port = omega arith;
}

abbrev pub honest : Answers
honest = record {
  send_ok = true;
  signal = got 1;
  data_of = got (node_data digit alice.name alice.ipaddr alice.port me);
  count = got 0;
  peers = [];
}
