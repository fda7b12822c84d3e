-- ===== src/PeerToPeer/Transfer.antt =====
-- The transfer of a file in Lab 7 Windows/PeerToPeer/PeerToPeer.c: `DownloadFile` (lines 53 to 94) and
-- `FIleRequestHandler` (96 to 123). The loops over words are those of Lab 7.
pub mod Laws
use innopolis_networks_s.Base.{
  ℕ, ◌-◌, ◌^◌, Bool, true, false, not, Option, none, some, List, [], ◌∷◌, if◌then◌else◌, ℤ, pos,
  negsuc,
}
use innopolis_networks_s.Socket.{Recv, failed, closed, got, received}
use innopolis_networks_s.Transfer.{
  Download, no_socket, not_requested, no_count, no_file, not_opened, saved, as_signed, count_words,
  send_words, save_words,
}
use innopolis_networks_s.PeerToPeer.ByteOrder.{ByteOrder, htonl_o, ntohl_o}

-- What the handler sends: 32 bits, and the words.
pub record Sent (W : Type 0) : Type 0 where
  pub wordcount : ℕ
  pub words : List W

module _ (b : ByteOrder) {W : Type 0} where
  -- The loop goes up to the number in network order.
  unfoldable pub file_request_handler : Option (List W) → W → Sent W
  file_request_handler none wordbuf = record { wordcount = htonl_o b (2 ^ 32 - 1); words = [] }
  file_request_handler (some file) wordbuf =
      let wordcount = htonl_o b (count_words file 0) in
      record { wordcount = wordcount; words = send_words wordcount file wordbuf }

  abbrev pub save : Bool → ℤ → List (Recv W) → W → Download W
  save opened (negsuc n) rs wordbuf = no_file
  save false (pos n) rs wordbuf = not_opened
  save true (pos n) rs wordbuf = saved (save_words n rs wordbuf)

  abbrev pub take_count : Recv ℕ → Bool → List (Recv W) → W → Download W
  take_count failed opened rs wordbuf = no_count
  take_count closed opened rs wordbuf = save opened (as_signed (ntohl_o b 0)) rs wordbuf
  take_count (got n) opened rs wordbuf = save opened (as_signed (ntohl_o b n)) rs wordbuf

  unfoldable pub download_file :
      (connected requested : Bool) → Recv ℕ → (opened : Bool) → List (Recv W) → W → Download W
  download_file connected requested count opened rs wordbuf =
      if not connected
      then no_socket
      else if not requested
      then not_requested
      else take_count count opened rs wordbuf
