-- ===== src/Retrieve/Repl.antt =====
-- Any number of rounds of `user_repl`.
use innopolis_networks_s.Base.{
  ℕ, ◌+◌, ◌<◌, ◌≡◌, refl, true, false, Option, none, some, List, [], ◌∷◌, ◌++◌, leb, length,
  length-append, arith, Bool-cases, inl, inr,
}
use innopolis_networks_s.Memory.{Memory}
use innopolis_networks_s.Memory.Ends
use innopolis_networks_s.Memory.Ends.{Ends, ends}
use innopolis_networks_s.Text.{Text}
use innopolis_networks_s.LinkedList.{Node, LinkedList}
use innopolis_networks_s.LinkedList.Layout.{Cell, IsList}
use innopolis_networks_s.Transfer.{Download}
use innopolis_networks_s.Retrieve.{
  exit, filepath_len, strcmp_eq, Printed, Files, retrieve_file, user_repl,
}
use innopolis_networks_s.Retrieve.Laws.{first_named, outcome, fetched, come, retrieve_file_lem}

module _ {W V : Type 0} (flushed : List W → List W) (name_of : V → Text)
    (downloads : V → Download W) where
  -- The node behind each value sends something.
  abbrev pub AllServe : List (Cell V) → Type 0
  AllServe [] = Unit
  AllServe (c ∷ cs) = ((ws : List W) × (come (downloads c.val) ≡ some ws)) × AllServe cs

  -- In no round does the buffer hold "exit" before, and each path fits.
  abbrev pub AllFit : Text → List (Text × Text) → Type 0
  AllFit shared_dir [] = Unit
  AllFit shared_dir ((stale, typed) ∷ rounds) =
      (strcmp_eq stale exit ≡ false)
      × (length (shared_dir ++ typed) < filepath_len)
      × AllFit shared_dir rounds

  abbrev Said : ℕ → Memory (Node V) → Files W × List (Printed W) → Memory (Node V) → Type 0
  Said n m (fs, out) m' = (length out ≡ n) × (m' ≡ m)

  fetched-Ends :
      (path filename : Text) (fs : Files W) (m : Memory (Node V)) (cs : List (Cell V))
      → AllServe cs
      → Ends
          (Said 1 m)
          (fetched flushed name_of downloads path fs m (first_named name_of filename cs))
  fetched-Ends path filename fs m [] h = ends (refl, refl)
  fetched-Ends path filename fs m (c ∷ cs) ((ws, e), h) =
      elim (Bool-cases (strcmp_eq (name_of c.val) filename)) [
        | inl same ↦ rw (same, e) (ends (refl, refl))
        | inr other ↦ rw other (fetched-Ends path filename fs m cs h)
      ]

  outcome-Ends :
      (o : Option (List W)) (path filename : Text) (fs : Files W) (m : Memory (Node V))
      (cs : List (Cell V))
      → AllServe cs
      → Ends
          (Said 1 m)
          (outcome flushed name_of downloads o path fs m (first_named name_of filename cs))
  outcome-Ends none path filename fs m cs h = fetched-Ends path filename fs m cs h
  outcome-Ends (some ws) path filename fs m cs h = ends (refl, refl)

  module _ (m : Memory (Node V)) (l : LinkedList) (cs : List (Cell V)) (shared_dir : Text)
      (list : IsList m l cs) (serve : AllServe cs) where
    retrieve-Ends :
        (filename : Text) (fs : Files W)
        → length (shared_dir ++ filename) < filepath_len
        → Ends (Said 1 m) (retrieve_file flushed name_of downloads shared_dir filename fs l m)
    retrieve-Ends filename fs fits =
        let room : leb (length (shared_dir ++ filename) + 1) filepath_len ≡ true = ground arith in
        rw (retrieve_file_lem flushed name_of downloads m l cs shared_dir filename fs list, room)
          (outcome-Ends (fs (shared_dir ++ filename)) (shared_dir ++ filename) filename fs m cs
            serve)

    -- `user_repl` with a pool of files in memory in which each node that is asked sends something: if
    -- the paths of all files that the user types fit their 48 bytes and the buffer for the command
    -- never holds "exit" before it is filled, then it crashes in no round, prints one thing for each
    -- round, whatever the user types, "exit" included, and leaves the pool as it is.
    pub user_repl_lem :
        (rounds : List (Text × Text)) (fs : Files W)
        → AllFit shared_dir rounds
        → Ends
            (λ (fs', out) m'. (length out ≡ length rounds) × (m' ≡ m))
            (user_repl flushed name_of downloads shared_dir rounds fs l m)
    unfolding user_repl
    user_repl_lem [] fs h = ends (refl, refl)
    user_repl_lem ((stale, typed) ∷ rounds) fs (goes_on, fits, h) = rw goes_on (
        Ends.seq (retrieve-Ends typed fs fits) λ (fs1, out1) m1 (one, same). rw same (
          Ends.seq (user_repl_lem rounds fs1 h) λ (fs2, out2) m2 (many, same').
            ends (omega (arith, one, many, length-append out1 out2), same')))
