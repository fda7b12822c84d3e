-- ===== src/FileList.antt =====
-- The list of shared files as text: `form_file_str` of Lab 7/node.c (lines 24 to 40) writes it, the
-- second half of `parse_node` (lines 190 to 209) takes it apart. A result `none` is a write past the
-- end of a buffer.
pub mod Written
pub mod RoundTrip
mod Tests
use innopolis_networks_s.Base.{
  ℕ, ◌+◌, ◌-◌, Option, none, some, List, [], ◌∷◌, ◌++◌, if◌then◌else◌, ltb, leb, ℤ, pos, negsuc,
  length, take, drop,
}
use innopolis_networks_s.Base.Options.{◌>>=◌}
use innopolis_networks_s.Text.{Text, tokens, c_string}

-- `sprintf(str + offset, …)` of a text into a buffer of `cap` bytes, with the terminating 0
unfoldable pub sprintf_at : ℕ → ℕ → Text → Text → Option Text
sprintf_at cap offset str t =
    if leb (offset + length t + 1) cap then some (take offset str ++ t) else none

-- `while ((entry = readdir(shared)))`
unfoldable pub form_loop : ℕ → ℕ → Text → List Text → Option (ℕ × Text)
form_loop cap offset str [] = some (offset, str)
form_loop cap offset str (name ∷ names) = do
  next ← sprintf_at cap offset str (name ++ b',' ∷ [])
  form_loop cap (offset + (length name + 1)) next names

-- The directory is none if `opendir` fails; `str` is what the buffer holds before.
unfoldable pub form_file_str : ℕ → Option (List Text) → Text → Option (ℤ × Text)
form_file_str cap none str = some (negsuc 0, str)
form_file_str cap (some names) str = do
  begun ← sprintf_at cap 0 str (b'[' ∷ b']' ∷ [])
  (offset, listed) ← form_loop cap 1 begun names
  closed ← sprintf_at cap (offset - 1) listed (b']' ∷ [])
  some (pos (offset + 1), closed)

-- The names in a list; `garbage` is the byte of `filelist` that `memcpy` does not reach.
unfoldable pub parse_file_list : ℕ → Text → List Text
parse_file_list garbage tok =
    if ltb 2 (length tok)
    then tokens b',' (c_string (take (length tok - 2) (drop 1 tok) ++ garbage ∷ []))
    else []
