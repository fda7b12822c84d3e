-- ===== src/Messages/Nameless.antt =====
-- What becomes of the text of a node that has no name, as every node of Lab 7.
use innopolis_networks_s.Base.{
  ℕ, ◌<◌, ◌≡◌, refl, none, ◌∷◌, ◌++◌, length, arith, Option-cases, ==_of_eq, inl, inr,
}
use innopolis_networks_s.Text.{Text, strtok, skip}
use innopolis_networks_s.Text.Tokens.{IsWord, strtok-delimiter, strtok-end}
use innopolis_networks_s.Messages.{
  nodename_len, inet_addrstrlen, portnum_len, node_name, copied, node_data, node_of,
}
use innopolis_networks_s.Messages.RoundTrip.{copied-some}

-- A delimiter in front is skipped.
strtok-skip : (d : ℕ) (s : Text) → strtok d (d ∷ s) ≡ strtok d s
unfolding strtok skip
strtok-skip d s = rw (==_of_eq d d refl) refl

-- Without the name the address is taken for it, the port for the address, and the files for the port;
-- then no text is left for the files.
pub node_of-node_name :
    (sprintf_d : ℕ → Text) (strtoul : Text → ℕ) (stale garbage : ℕ) (ip : Text) (port : ℕ)
    (files : Text)
    → IsWord b':' ip
    → length ip < inet_addrstrlen
    → IsWord b':' (sprintf_d port)
    → length (sprintf_d port) < portnum_len
    → IsWord b':' files
    → node_of strtoul stale garbage (node_data sprintf_d node_name ip port files) ≡ none
unfolding node_of node_data strtok skip
node_of-node_name sprintf_d strtoul stale garbage ip port files a short b short' c =
    rw
      (
        strtok-skip b':' (ip ++ b':' ∷ (sprintf_d port ++ b':' ∷ files)),
        strtok-delimiter b':' ip (sprintf_d port ++ b':' ∷ files) a,
        copied-some nodename_len ip (omega arith),
        strtok-delimiter b':' (sprintf_d port) files b,
        copied-some inet_addrstrlen (sprintf_d port) (omega arith),
        strtok-end b':' files c,
      )
      (elim (Option-cases (copied portnum_len files)) [
        | inl e ↦ rw e refl
        | inr (t, e) ↦ rw e refl
      ])
