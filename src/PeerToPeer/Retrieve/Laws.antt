-- ===== src/PeerToPeer/Retrieve/Laws.antt =====
-- What `RetrieveFile` prints, and where `UserRepl` ends.
use mathlib.Core.List.{append_assoc}
use innopolis_networks_s.Base.{
  ◌+◌, ◌≡◌, refl, ap, ◌∙◌, none, List, [], ◌∷◌, ◌++◌, length, length-append, Bool-cases, inl, inr,
  Option-cases,
}
use innopolis_networks_s.Memory.{Memory, Outcome, crash, done, out_of_fuel, Cmd, and_then}
use innopolis_networks_s.Text.{Text}
use innopolis_networks_s.LinkedList.{Node, LinkedList}
use innopolis_networks_s.LinkedList.Layout.{Cell, IsList}
use innopolis_networks_s.LinkedList.Find.{get_val_lem}
use innopolis_networks_s.Transfer.{Download}
use innopolis_networks_s.Retrieve.{Files, exit, strcmp_eq}
use innopolis_networks_s.Retrieve.Laws.{first_named, fetched, outcome, print_lem}
use innopolis_networks_s.PeerToPeer.Retrieve.{scanned, retrieve_loop, retrieve_file, user_repl}

-- Commands that go on in the same way give the same.
and_then_cong :
    {O A B : Type 0} (r : Outcome O A) (j k : A → Cmd O B)
    → ((a : A) (m : Memory O) → j a m ≡ k a m)
    → and_then r j ≡ and_then r k
and_then_cong (done a m) j k h = h a m
and_then_cong crash j k h = refl
and_then_cong out_of_fuel j k h = refl

module _ {W V : Type 0} (flushed : List W → List W) (name_of : V → Text)
    (downloads : V → Download W) where
  loop_lem :
      (m : Memory (Node V)) (l : LinkedList) (filename : Text) (fs : Files W)
      (xs ys : List (Cell V))
      → IsList m l (xs ++ ys)
      → fs filename ≡ none
      → retrieve_loop flushed name_of downloads filename (length ys) (length xs) fs l m
        ≡ fetched flushed name_of downloads filename fs m (first_named name_of filename ys)
  unfolding retrieve_loop
  loop_lem m l filename fs xs [] h absent = refl
  loop_lem m l filename fs xs (y ∷ ys) h absent =
      let shift : length (xs ++ y ∷ []) ≡ length xs + 1 = length-append xs (y ∷ []) in
      let h' : IsList m l ((xs ++ y ∷ []) ++ ys) = rw append_assoc h in
      rw (get_val_lem m l xs ys y h) (elim (Bool-cases (strcmp_eq (name_of y.val) filename)) [
        | inl e ↦ rw e (print_lem flushed name_of downloads m filename fs (downloads y.val) absent)
        | inr e ↦ rw (e, ← shift) (loop_lem m l filename fs (xs ++ y ∷ []) ys h' absent)
      ])

  -- `RetrieveFile` with a pool of files in memory does what Lab 7's `retrieve_file` does with a path
  -- that fits and is the name of the file: it prints the file that is there; else it asks the node of
  -- the first value in the pool with this name, and prints of the words that this node has sent those
  -- that are in the file, or crashes if the node has sent none; and if the pool has no such name, it
  -- says so. It leaves the pool as it is.
  pub retrieve_file-outcome :
      (m : Memory (Node V)) (l : LinkedList) (cs : List (Cell V)) (filename : Text) (fs : Files W)
      → IsList m l cs
      → retrieve_file flushed name_of downloads filename fs l m
        ≡ outcome flushed name_of downloads
            (fs filename)
            filename
            fs
            m
            (first_named name_of filename cs)
  unfolding retrieve_file
  retrieve_file-outcome m l cs filename fs h = elim (Option-cases (fs filename)) [
    | inl absent ↦ rw absent (
        ap (λ n. retrieve_loop flushed name_of downloads filename n 0 fs l m) h.size
        ∙ loop_lem m l filename fs [] cs h absent)
    | inr (ws, there) ↦ rw there refl
  ]

  -- `UserRepl` ends at the first "exit": whatever the user would type after it makes no difference to
  -- what is printed, to the files and to the memory.
  pub user_repl-exit :
      (before behind : List Text) (fs : Files W) (l : LinkedList) (m : Memory (Node V))
      → user_repl flushed name_of downloads (before ++ exit ∷ behind) fs l m
        ≡ user_repl flushed name_of downloads before fs l m
  unfolding user_repl strcmp_eq
  user_repl-exit [] behind fs l m = refl
  user_repl-exit (typed ∷ before) behind fs l m =
      elim (Bool-cases (strcmp_eq (scanned typed) exit)) [
        | inl e ↦ rw e refl
        | inr e ↦ rw e (
            and_then_cong (retrieve_file flushed name_of downloads (scanned typed) fs l m) _ _
              λ (fs', out) m'. rw (user_repl-exit before behind fs' l m') refl)
      ]
