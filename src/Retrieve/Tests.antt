-- ===== src/Retrieve/Tests.antt =====
-- A pool of one file.
use innopolis_networks_s.Base.{
  ℕ, ◌+◌, ◌≡◌, refl, true, pos, map, take, none, some, List, [], ◌∷◌, ◌++◌, leb, if◌then◌else◌,
  length, arith,
}
use innopolis_networks_s.Memory.{Memory, write, done, crash}
use innopolis_networks_s.Text.{Text}
use innopolis_networks_s.Socket.{got}
use innopolis_networks_s.LinkedList.{Node, LinkedList}
use innopolis_networks_s.LinkedList.Layout.{node, Cell, IsList}
use innopolis_networks_s.Transfer.{Download, download_file, save_words}
use innopolis_networks_s.Retrieve.{
  strcmp_eq, ask, filepath_len, Owner, shown, Files, write_file, retrieve_file, exit,
}
use innopolis_networks_s.Retrieve.Laws.{first_named, outcome, retrieve_file_lem}
use innopolis_networks_s.Retrieve.Repl.{AllFit}

abbrev name_of : Text → Text
name_of t = t

abbrev only : Cell Text
only = record { addr = 1; val = b'f' ∷ [] }

abbrev memory : Memory (Node Text)
memory = record { cell = write (λ a. none) 1 (some (node (b'f' ∷ []) 0 0)); calls = 1; limit = 2 }

abbrev filepool : LinkedList
filepool = record { head = 1; tail = 1; size = 1 }

filepool-IsList : IsList memory filepool (only ∷ [])
unfolding write
filepool-IsList = record {
  head = refl;
  tail = refl;
  size = refl;
  fits = omega arith;
  chain = (ground arith, refl, refl, tt);
  bounded = λ a h. ground arith;
}

abbrev words : List ℕ
words = 7 ∷ 8 ∷ []

abbrev owner : Text → Owner ℕ
owner v = record {
  valid = true;
  requested = true;
  count = got (pos 2);
  opened = true;
  words = map got words;
  wordbuf = 0;
}

abbrev downloads : Text → Download ℕ
downloads v = ask (owner v)

-- the first word of a file is in it
abbrev flushed : List ℕ → List ℕ
flushed ws = take 1 ws

abbrev shared_dir : Text
shared_dir = b'd' ∷ b'/' ∷ []

abbrev no_files : Files ℕ
no_files p = none

retrieve_file_lem_example :
    retrieve_file flushed name_of downloads shared_dir (b'f' ∷ []) no_files filepool memory ≡ (
      if leb (length (shared_dir ++ b'f' ∷ []) + 1) filepath_len
      then outcome flushed name_of downloads
          (no_files (shared_dir ++ b'f' ∷ []))
          (shared_dir ++ b'f' ∷ [])
          no_files
          memory
          (first_named name_of (b'f' ∷ []) (only ∷ []))
      else crash)
retrieve_file_lem_example =
    retrieve_file_lem flushed name_of downloads memory filepool (only ∷ []) shared_dir (b'f' ∷ [])
      no_files filepool-IsList

-- The node sends two words, and the one that is in the file is printed.
fetched :
    retrieve_file flushed name_of downloads shared_dir (b'f' ∷ []) no_files filepool memory
    ≡ done (write_file no_files (shared_dir ++ b'f' ∷ []) (7 ∷ []), shown (7 ∷ []) ∷ []) memory
unfolding strcmp_eq download_file save_words
fetched =
    retrieve_file_lem flushed name_of downloads memory filepool (only ∷ []) shared_dir (b'f' ∷ [])
      no_files filepool-IsList

abbrev rounds : List (Text × Text)
rounds = ([], b'f' ∷ []) ∷ (b'f' ∷ [], exit) ∷ []

AllFit-rounds : AllFit flushed name_of downloads shared_dir rounds
unfolding strcmp_eq
AllFit-rounds = (refl, omega arith, (refl, omega arith, tt))
