-- ===== src/Text.antt =====
-- C strings, as the bytes before the terminating 0, and what the programs use of string.h.
pub mod Tokens
use innopolis_networks_s.Base.{
  ℕ, zero, suc, ◌+◌, ◌≤◌, ◌≡◌, ◌≢◌, refl, Bool, true, false, Option, none, some, List, [], ◌∷◌,
  ◌++◌, ◌==◌, if◌then◌else◌, length,
}

abbrev pub Text : Type 0
Text = List ℕ

-- `strtok` for one delimiter: the delimiters before the token are skipped.
unfoldable pub skip : ℕ → Text → Text
skip d [] = []
skip d (c ∷ cs) = let rest = skip d cs in if c == d then rest else c ∷ cs

-- the bytes before the next delimiter
unfoldable pub token : ℕ → Text → Text
token d [] = []
token d (c ∷ cs) = let rest = token d cs in if c == d then [] else c ∷ rest

-- the bytes behind it
unfoldable pub behind : ℕ → Text → Text
behind d [] = []
behind d (c ∷ cs) = let rest = behind d cs in if c == d then cs else rest

abbrev pub token_of : ℕ → Text → Option (Text × Text)
token_of d [] = none
token_of d (c ∷ cs) = some (token d (c ∷ cs), behind d (c ∷ cs))

-- The token, and what the next call goes on with; `none` is the NULL at the end.
unfoldable pub strtok : ℕ → Text → Option (Text × Text)
strtok d s = token_of d (skip d s)

-- `while (tok) { …; tok = strtok(NULL, delim); }`: the tokens that the loop sees, on fuel.
unfoldable pub token_loop : ℕ → ℕ → Text → List Text
token_loop zero d s = []
token_loop (suc fuel) d s = elim (strtok d s) [ none ↦ [] | some r ↦ r.0 ∷ token_loop fuel d r.1 ]

-- Each token takes a byte at least.
unfoldable pub tokens : ℕ → Text → List Text
tokens d s = token_loop (length s + 1) d s

-- The string in a buffer: the bytes before the first 0.
unfoldable pub c_string : Text → Text
c_string s = token 0 s
