-- ===== src/Transfer.antt =====
-- The transfer of a file between two nodes, Lab 7/node.c (lines 47 to 117): `file_request_handler`
-- sends the number of words in a file and then the words, `download_file` writes what it receives.
-- `W` is the type of the words that fit `wordbuf`. The request of `download_file` is the number of its
-- kind and nothing more: no name of a file is sent, for which `incoming_handler` waits, and a socket of
-- `init_tcp_client` is bound and joined to no peer (Networking.antt).
pub mod Laws
mod Tests
use innopolis_networks_s.Base.{
  ltb, ◌-◌, true, false, ℕ, zero, suc, ◌+◌, ◌%◌, ◌^◌, Bool, not, Option, none, some, List, [], ◌∷◌,
  if◌then◌else◌, ℤ, pos, negsuc, ltℤ,
}
use innopolis_networks_s.Socket.{Recv, failed, closed, got, received}

-- What the handler sends: the number, as the receiver's `int` reads it, and the words.
pub record Sent (W : Type 0) : Type 0 where
  pub wordcount : ℤ
  pub words : List W

-- How `download_file` ends: `not_opened` if there is no word to write and `fopen` gave NULL, and
-- `no_stream` is a call of `fprintf` on the NULL that `fopen` gave.
pub data Download (W : Type 0) : Type 0 where
  no_socket not_requested no_count no_file not_opened no_stream : Download W
  saved : List W → Download W

-- The bits of an `unsigned int` read as an `int`.
unfoldable pub as_signed : ℕ → ℤ
as_signed n = if ltb n (2 ^ 31) then pos n else negsuc (2 ^ 32 - n - 1)

module _ {W : Type 0} where
  -- `fscanf(file, "%s", wordbuf)`: at the end of the file the buffer keeps its word.
  abbrev pub scan : List W → W → W
  scan [] wordbuf = wordbuf
  scan (w ∷ ws) wordbuf = w

  abbrev pub unread : List W → List W
  unread [] = []
  unread (w ∷ ws) = ws

  -- `while (fscanf(…) > 0) wordcount++`, on a file of these words
  unfoldable pub count_words : List W → ℕ → ℕ
  count_words [] wordcount = wordcount
  count_words (w ∷ ws) wordcount = count_words ws ((wordcount + 1) % 2 ^ 32)

  -- the loop that sends, with `left` rounds to go
  unfoldable pub send_words : ℕ → List W → W → List W
  send_words zero file wordbuf = []
  send_words (suc left) file wordbuf =
      scan file wordbuf ∷ send_words left (unread file) (scan file wordbuf)

  -- The file is none if `fopen` fails.
  unfoldable pub file_request_handler : Option (List W) → W → Sent W
  file_request_handler none wordbuf = record { wordcount = negsuc 0; words = [] }
  file_request_handler (some file) wordbuf =
      let wordcount = count_words file 0 in
      record { wordcount = as_signed wordcount; words = send_words wordcount file wordbuf }

  -- The loop of `download_file`, with `left` rounds to go; `recv` gives what is in the list, and then
  -- finds the connection closed.
  unfoldable pub save_words : ℕ → List (Recv W) → W → List W
  save_words zero rs wordbuf = []
  save_words (suc left) [] wordbuf = wordbuf ∷ save_words left [] wordbuf
  save_words (suc left) (r ∷ rs) wordbuf =
      received r wordbuf ∷ save_words left rs (received r wordbuf)

  abbrev pub save : Bool → ℤ → List (Recv W) → W → Download W
  save opened (negsuc n) rs wordbuf = no_file
  save true (pos n) rs wordbuf = saved (save_words n rs wordbuf)
  save false (pos zero) rs wordbuf = not_opened
  save false (pos (suc n)) rs wordbuf = no_stream

  abbrev pub take_count : Recv ℤ → Bool → List (Recv W) → W → Download W
  take_count failed opened rs wordbuf = no_count
  take_count closed opened rs wordbuf = save opened (pos 0) rs wordbuf
  take_count (got n) opened rs wordbuf = save opened n rs wordbuf

  -- `valid` says whether `init_tcp_client` gave a socket, which `connect` has joined to no one, and
  -- `requested` whether the `send` of `NODE_FILE_REQUEST` went well, after which the code waits for the
  -- number of words; `wordbuf` is what the buffer holds before the first word.
  unfoldable pub download_file :
      (valid requested : Bool) → Recv ℤ → (opened : Bool) → List (Recv W) → W → Download W
  download_file valid requested count opened rs wordbuf =
      if not valid
      then no_socket
      else if not requested
      then not_requested
      else take_count count opened rs wordbuf
