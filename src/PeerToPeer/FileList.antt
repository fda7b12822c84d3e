-- ===== src/PeerToPeer/FileList.antt =====
-- `FormFileStr` of Lab 7 Windows/PeerToPeer/PeerToPeer.c (lines 32 to 51).
pub mod Laws
use innopolis_networks_s.Base.{
  ℕ, ◌+◌, ◌-◌, Bool, false, Option, none, some, List, [], ◌∷◌, ◌++◌, ◌==◌, if◌then◌else◌, leb, ℤ,
  pos, negsuc, length, take,
}
use innopolis_networks_s.Text.{Text}

-- `sprintf_s` ends the process by the handler for an invalid parameter where the text does not fit the
-- size that it gets (`aborted`); `overflowed` is a write past the end of the buffer.
pub data Written (A : Type 0) : Type 0 where
  aborted overflowed : Written A
  wrote : A → Written A

infixl 10 ◌>>=◌
abbrev pub ◌>>=◌ : {A B : Type 0} → Written A → (A → Written B) → Written B
aborted >>= f = aborted
overflowed >>= f = overflowed
wrote a >>= f = f a

-- `sprintf_s(str + offset, size, …)` of a text into a buffer of `cap` bytes
unfoldable pub sprintf_s_at : (cap size offset : ℕ) → Text → Text → Written Text
sprintf_s_at cap size offset str t =
    if leb (length t + 1) size
    then if leb (offset + length t + 1) cap then wrote (take offset str ++ t) else overflowed
    else aborted

-- `data.cFileName[0] == '.'`
abbrev pub is_hidden : Text → Bool
is_hidden [] = false
is_hidden (c ∷ name) = c == b'.'

-- The loop over what `FindFirstFileA` and `FindNextFileA` give. Each call of `sprintf_s` gets the size of
-- the whole buffer, `str_count`, and not what is left of it behind the offset.
unfoldable pub form_loop : ℕ → ℕ → Text → List Text → Written (ℕ × Text)
form_loop str_count offset str [] = wrote (offset, str)
form_loop str_count offset str (name ∷ names) =
    let rest = form_loop str_count offset str names in
    if is_hidden name then rest else do
      next ← sprintf_s_at str_count str_count offset str (name ++ b',' ∷ [])
      form_loop str_count (offset + (length name + 1)) next names

-- The directory is none if `FindFirstFileA` finds nothing; `str` is what the buffer holds before.
unfoldable pub form_file_str : ℕ → Option (List Text) → Text → Written (ℤ × Text)
form_file_str str_count none str = wrote (negsuc 0, str)
form_file_str str_count (some names) str = do
  begun ← sprintf_s_at str_count str_count 0 str (b'[' ∷ b']' ∷ [])
  (offset, listed) ← form_loop str_count 1 begun names
  closed ← sprintf_s_at str_count str_count (offset - 1) listed (b']' ∷ [])
  wrote (pos (offset + 1), closed)
