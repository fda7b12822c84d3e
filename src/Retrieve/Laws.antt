-- ===== src/Retrieve/Laws.antt =====
-- What `retrieve_file` prints, for a pool of files in memory.
use mathlib.Core.List.{append_assoc}
use innopolis_networks_s.Base.{
  ◌+◌, ◌≡◌, refl, ap, ◌∙◌, true, Option, none, some, List, [], ◌∷◌, ◌++◌, if◌then◌else◌, leb,
  length, length-append, ==_of_eq, Bool-cases, inl, inr, Option-cases,
}
use innopolis_networks_s.Memory.{Memory, Outcome, crash, done, and_then}
use innopolis_networks_s.Text.{Text}
use innopolis_networks_s.LinkedList.{Node, LinkedList}
use innopolis_networks_s.LinkedList.Layout.{Cell, IsList}
use innopolis_networks_s.LinkedList.Find.{get_val_lem}
use innopolis_networks_s.Transfer.{
  Download, saved, no_stream, no_socket, not_requested, no_count, no_file, not_opened,
}
use innopolis_networks_s.Retrieve.{
  filepath_len, strcmp_eq, Printed, shown, sorry, Files, write_file, downloaded, print_file,
  look_up, retrieve_loop, retrieve_file,
}

-- The first value of the pool with the wanted name.
abbrev pub first_named : {V : Type 0} → (V → Text) → Text → List (Cell V) → Option V
first_named name_of filename [] = none
first_named name_of filename (c ∷ cs) =
    if strcmp_eq (name_of c.val) filename then some c.val else first_named name_of filename cs

strcmp_eq_refl : (s : Text) → strcmp_eq s s ≡ true
unfolding strcmp_eq
strcmp_eq_refl [] = refl
strcmp_eq_refl (c ∷ s) = rw (==_of_eq c c refl) (strcmp_eq_refl s)

-- the words that a download has written
abbrev pub come : {W : Type 0} → Download W → Option (List W)
come (saved ws) = some ws
come _ = none

module _ {W V : Type 0} (flushed : List W → List W) (name_of : V → Text)
    (downloads : V → Download W) where
  -- After a download that has saved a file, of no word even, the program prints the words that are in
  -- it; after one that has failed it crashes.
  abbrev pub shown_words :
      Text
      → Files W
      → Memory (Node V)
      → Option (List W)
      → Outcome (Node V) (Files W × List (Printed W))
  shown_words path fs m none = crash
  shown_words path fs m (some ws) =
      done (write_file fs path (flushed ws), shown (flushed ws) ∷ []) m

  abbrev pub fetched :
      Text → Files W → Memory (Node V) → Option V → Outcome (Node V) (Files W × List (Printed W))
  fetched path fs m none = done (fs, sorry ∷ []) m
  fetched path fs m (some v) = shown_words path fs m (come (downloads v))

  pub print_lem :
      (m : Memory (Node V)) (path : Text) (fs : Files W) (d : Download W)
      → fs path ≡ none
      → and_then
          (downloaded flushed name_of downloads d path fs m)
          (λ fs'. print_file (fs' path) fs')
        ≡ shown_words path fs m (come d)
  unfolding write_file
  print_lem m path fs (saved ws) absent = rw (strcmp_eq_refl path) refl
  print_lem m path fs no_stream absent = refl
  print_lem m path fs no_socket absent = rw absent refl
  print_lem m path fs not_requested absent = rw absent refl
  print_lem m path fs no_count absent = rw absent refl
  print_lem m path fs no_file absent = rw absent refl
  print_lem m path fs not_opened absent = rw absent refl

  loop_lem :
      (m : Memory (Node V)) (l : LinkedList) (path filename : Text) (fs : Files W)
      (xs ys : List (Cell V))
      → IsList m l (xs ++ ys)
      → fs path ≡ none
      → retrieve_loop flushed name_of downloads path filename (length ys) (length xs) fs l m
        ≡ fetched path fs m (first_named name_of filename ys)
  unfolding retrieve_loop
  loop_lem m l path filename fs xs [] h absent = refl
  loop_lem m l path filename fs xs (y ∷ ys) h absent =
      let shift : length (xs ++ y ∷ []) ≡ length xs + 1 = length-append xs (y ∷ []) in
      let h' : IsList m l ((xs ++ y ∷ []) ++ ys) = rw append_assoc h in
      rw (get_val_lem m l xs ys y h) (elim (Bool-cases (strcmp_eq (name_of y.val) filename)) [
        | inl e ↦ rw e (print_lem m path fs (downloads y.val) absent)
        | inr e ↦ rw (e, ← shift) (loop_lem m l path filename fs (xs ++ y ∷ []) ys h' absent)
      ])

  -- what comes of a path that fits, with what the first `fopen` gives
  abbrev pub outcome :
      Option (List W)
      → Text
      → Files W
      → Memory (Node V)
      → Option V
      → Outcome (Node V) (Files W × List (Printed W))
  outcome (some ws) path fs m v = done (fs, shown ws ∷ []) m
  outcome none path fs m v = fetched path fs m v

  look_up_lem :
      (m : Memory (Node V)) (l : LinkedList) (cs : List (Cell V)) (path filename : Text)
      (fs : Files W)
      → IsList m l cs
      → look_up flushed name_of downloads (fs path) path filename fs l m
        ≡ outcome (fs path) path fs m (first_named name_of filename cs)
  look_up_lem m l cs path filename fs h = elim (Option-cases (fs path)) [
    | inl absent ↦ rw absent (
        ap (λ n. retrieve_loop flushed name_of downloads path filename n 0 fs l m) h.size
        ∙ loop_lem m l path filename fs [] cs h absent)
    | inr (ws, there) ↦ rw there refl
  ]

  -- What `retrieve_file` does with a pool of files in memory, which it leaves as it is: where the
  -- path does not fit its 48 bytes, it crashes; a file that is there it prints; else it downloads
  -- from the node of the first value in the pool with this name, and prints, of the words that the
  -- download has saved, those that are in the file, none if none has been saved, or crashes if the
  -- download has failed; and if the pool has no such name, it says so.
  pub retrieve_file_lem :
      (m : Memory (Node V)) (l : LinkedList) (cs : List (Cell V)) (shared_dir filename : Text)
      (fs : Files W)
      → IsList m l cs
      → retrieve_file flushed name_of downloads shared_dir filename fs l m ≡ (
          if leb (length (shared_dir ++ filename) + 1) filepath_len
          then outcome
              (fs (shared_dir ++ filename))
              (shared_dir ++ filename)
              fs
              m
              (first_named name_of filename cs)
          else crash)
  unfolding retrieve_file
  retrieve_file_lem m l cs shared_dir filename fs h =
      elim (Bool-cases (leb (length (shared_dir ++ filename) + 1) filepath_len)) [
        | inr e ↦ rw e refl
        | inl e ↦ rw e (look_up_lem m l cs (shared_dir ++ filename) filename fs h)
      ]
