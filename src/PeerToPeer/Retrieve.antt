-- ===== src/PeerToPeer/Retrieve.antt =====
-- What the user of a node sees in Lab 7 Windows/PeerToPeer/PeerToPeer.c: `RetrieveFile` (lines 411 to 451)
-- and `UserRepl` (453 to 471). Files are those of the current directory; `downloads` says what
-- `DownloadFile` gives for a value of the pool of files.
pub mod Laws
use innopolis_networks_s.Base.{
  ℕ, zero, suc, ◌+◌, Bool, false, Option, none, some, List, [], ◌∷◌, ◌++◌, leb, length,
  if◌then◌else◌,
}
use innopolis_networks_s.Memory.{Cmd, crash, pure, ◌>>=◌}
use innopolis_networks_s.Text.{Text}
use innopolis_networks_s.LinkedList.{Node, LinkedList, get_val}
use innopolis_networks_s.Transfer.{Download}
use innopolis_networks_s.Retrieve.{
  Files, Printed, shown, sorry, strcmp_eq, exit, downloaded, print_file,
}

-- FILENAME_LEN
abbrev pub filename_len : ℕ
filename_len = 24

-- `scanf_s` leaves the empty string where the word does not fit.
abbrev pub scanned : Text → Text
scanned typed = if leb (length typed + 1) filename_len then typed else []

module _ {W V : Type 0} (flushed : List W → List W) (name_of : V → Text)
    (downloads : V → Download W) where
  -- `nodeFile != NULL && strcmp(nodeFile->name, fileName) == 0`
  abbrev pub is_named : Text → Option V → Bool
  is_named filename none = false
  is_named filename (some v) = strcmp_eq (name_of v) filename

  abbrev pub fetch : Text → Option V → Files W → Cmd (Node V) (Files W × List (Printed W))
  fetch filename none fs = λ _. crash
  fetch filename (some v) fs = do
    fs' ← downloaded flushed name_of downloads (downloads v) filename fs
    print_file (fs' filename) fs'

  -- the loop over the pool of files, with `left` rounds to go, from the index `i`
  unfoldable pub retrieve_loop :
      Text → ℕ → ℕ → Files W → LinkedList → Cmd (Node V) (Files W × List (Printed W))
  retrieve_loop filename zero i fs filepool = pure (fs, sorry ∷ [])
  retrieve_loop filename (suc left) i fs filepool = do
    node_file ← get_val filepool i
    let rest : Cmd (Node V) (Files W × List (Printed W)) =
        retrieve_loop filename left (i + 1) fs filepool
    if is_named filename node_file then fetch filename node_file fs else rest

  -- The first argument is what the first `fopen_s` gave.
  abbrev pub look_up :
      Option (List W) → Text → Files W → LinkedList → Cmd (Node V) (Files W × List (Printed W))
  look_up (some ws) filename fs filepool = pure (fs, shown ws ∷ [])
  look_up none filename fs filepool = retrieve_loop filename filepool.size 0 fs filepool

  unfoldable pub retrieve_file :
      Text → Files W → LinkedList → Cmd (Node V) (Files W × List (Printed W))
  retrieve_file filename fs filepool = look_up (fs filename) filename fs filepool

  -- `while (running)`, for what the user types
  unfoldable pub user_repl :
      List Text → Files W → LinkedList → Cmd (Node V) (Files W × List (Printed W))
  user_repl [] fs filepool = pure (fs, [])
  user_repl (typed ∷ rounds) fs filepool =
      if strcmp_eq (scanned typed) exit then pure (fs, []) else do
        (fs', out) ← retrieve_file (scanned typed) fs filepool
        (fs'', later) ← user_repl rounds fs' filepool
        pure (fs'', out ++ later)
