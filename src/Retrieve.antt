-- ===== src/Retrieve.antt =====
-- What the user of a node sees, Lab 7/node.c: `retrieve_file` (lines 362 to 402) and `user_repl` (404 to
-- 419). The pool of files is a list in memory whose values name a file (`name_of`), and `downloads`
-- says what `download_file` gives for such a value. `W` is the type of words.
pub mod Laws
pub mod Repl
mod Tests
use innopolis_networks_s.Base.{
  ℕ, zero, suc, ◌+◌, ◌&&◌, Bool, true, false, Option, none, some, List, [], ◌∷◌, ◌++◌, ◌==◌, leb,
  length, if◌then◌else◌, ℤ,
}
use innopolis_networks_s.Memory.{Cmd, crash, pure, ◌>>=◌}
use innopolis_networks_s.Text.{Text}
use innopolis_networks_s.Socket.{Recv}
use innopolis_networks_s.LinkedList.{Node, LinkedList, get_val}
use innopolis_networks_s.Peers.{deref}
use innopolis_networks_s.Transfer.{Download, saved, no_stream, download_file}

-- FILENAME_LEN * 2
abbrev pub filepath_len : ℕ
filepath_len = 48

abbrev pub exit : Text
exit = b'e' ∷ b'x' ∷ b'i' ∷ b't' ∷ []

-- `strcmp(s, t) == 0`
unfoldable pub strcmp_eq : Text → Text → Bool
strcmp_eq [] [] = true
strcmp_eq [] (d ∷ t) = false
strcmp_eq (c ∷ s) [] = false
strcmp_eq (c ∷ s) (d ∷ t) = let rest = strcmp_eq s t in if c == d then rest else false

-- The answers of a node to `download_file`.
pub record Owner (W : Type 0) : Type 0 where
  pub valid : Bool
  pub requested : Bool
  pub count : Recv ℤ
  pub opened : Bool
  pub words : List (Recv W)
  pub wordbuf : W

abbrev pub ask : {W : Type 0} → Owner W → Download W
ask o = download_file o.valid o.requested o.count o.opened o.words o.wordbuf

pub data Printed (W : Type 0) : Type 0 where
  shown : List W → Printed W
  sorry : Printed W

-- The words of each file that can be opened.
abbrev pub Files : Type 0 → Type 0
Files W = Text → Option (List W)

unfoldable pub write_file : {W : Type 0} → Files W → Text → List W → Files W
write_file fs path ws p = if strcmp_eq p path then some ws else fs p

-- The loop that prints, on what `fopen` gave: `fscanf` on NULL crashes.
abbrev pub print_file :
    {W V : Type 0} → Option (List W) → Files W → Cmd (Node V) (Files W × List (Printed W))
print_file none fs = λ _. crash
print_file (some ws) fs = pure (fs, shown ws ∷ [])

module _ {W V : Type 0} (flushed : List W → List W) (name_of : V → Text)
    (downloads : V → Download W) where
  -- What a download leaves: `download_file` never closes the file that it writes, and of the words
  -- written `flushed` are in the file.
  abbrev pub downloaded : Download W → Text → Files W → Cmd (Node V) (Files W)
  downloaded (saved ws) path fs = pure (write_file fs path (flushed ws))
  downloaded no_stream path fs = λ _. crash
  downloaded _ path fs = pure fs

  -- the loop over the pool of files, with `left` rounds to go, from the index `i`
  unfoldable pub retrieve_loop :
      (path filename : Text)
      → ℕ
      → ℕ
      → Files W
      → LinkedList
      → Cmd (Node V) (Files W × List (Printed W))
  retrieve_loop path filename zero i fs filepool = pure (fs, sorry ∷ [])
  retrieve_loop path filename (suc left) i fs filepool = do
    v ← get_val filepool i
    node_file ← deref v
    let rest : Cmd (Node V) (Files W × List (Printed W)) =
        retrieve_loop path filename left (i + 1) fs filepool
    if strcmp_eq (name_of node_file) filename
        then (do fs' ← downloaded (downloads node_file) path fs; print_file (fs' path) fs')
        else rest

  -- The first argument is what the first `fopen` gave.
  abbrev pub look_up :
      Option (List W)
      → (path filename : Text) → Files W
      → LinkedList
      → Cmd (Node V) (Files W × List (Printed W))
  look_up (some ws) path filename fs filepool = pure (fs, shown ws ∷ [])
  look_up none path filename fs filepool = retrieve_loop path filename filepool.size 0 fs filepool

  -- `strcat` past the end of `filepath` crashes.
  unfoldable pub retrieve_file :
      (shared_dir filename : Text)
      → Files W
      → LinkedList
      → Cmd (Node V) (Files W × List (Printed W))
  retrieve_file shared_dir filename fs filepool =
      let path = shared_dir ++ filename in
      if leb (length path + 1) filepath_len
      then look_up (fs path) path filename fs filepool
      else λ _. crash

  -- `while (running)`: for each round what the buffer `command` holds before, and what the user types.
  -- The comparison with "exit" comes before `scanf`.
  unfoldable pub user_repl :
      (shared_dir : Text)
      → List (Text × Text)
      → Files W
      → LinkedList
      → Cmd (Node V) (Files W × List (Printed W))
  user_repl shared_dir [] fs filepool = pure (fs, [])
  user_repl shared_dir ((stale, typed) ∷ rounds) fs filepool =
      if strcmp_eq stale exit then pure (fs, []) else do
        (fs', out) ← retrieve_file shared_dir typed fs filepool
        (fs'', later) ← user_repl shared_dir rounds fs' filepool
        pure (fs'', out ++ later)
