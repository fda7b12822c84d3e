-- ===== src/FileList/Tests.antt =====
-- Two files.
use innopolis_networks_s.Base.{
  ◌≡◌, refl, some, none, List, [], ◌∷◌, ◌+◌, if◌then◌else◌, leb, pos, length, arith,
}
use innopolis_networks_s.Text.{Text}
use innopolis_networks_s.FileList.{form_file_str, form_loop, sprintf_at}
use innopolis_networks_s.FileList.Written.{listed, listing, form_file_str_lem}

abbrev names : List Text
names = (b'a' ∷ []) ∷ (b'b' ∷ b'c' ∷ []) ∷ []

-- "[a,bc]"
written :
    form_file_str 24 (some names) [] ≡ some (pos 7, b'[' ∷ b'a' ∷ b',' ∷ b'b' ∷ b'c' ∷ b']' ∷ [])
unfolding form_file_str form_loop sprintf_at
written = refl

form_file_str_lem_example : form_file_str 24 (some names) [] ≡ (
    if leb (length (listed names) + 2) 24
    then some (pos (length (listing names) + 1), listing names)
    else none)
form_file_str_lem_example = form_file_str_lem 24 names [] (omega arith)
