-- ===== src/PeerToPeer/FileList/Laws.antt =====
-- What `FormFileStr` writes.
use innopolis_networks_s.Base.{
  ℕ, ◌+◌, ◌-◌, ◌≤◌, ◌≡◌, refl, true, Option, none, some, List, [], ◌∷◌, ◌++◌, if◌then◌else◌, leb,
  length, length-append, arith, Bool-cases, Option-cases, inl, inr,
}
use innopolis_networks_s.Text.{Text}
use innopolis_networks_s.FileList
use innopolis_networks_s.FileList.{sprintf_at}
use innopolis_networks_s.PeerToPeer.FileList.{
  Written, overflowed, wrote, sprintf_s_at, is_hidden, form_loop, form_file_str,
}

-- The names of files that are not hidden.
abbrev pub visible : List Text → List Text
visible [] = []
visible (name ∷ names) = if is_hidden name then visible names else name ∷ visible names

-- Each of these names, with a comma and the terminating 0, fits a buffer of `cap` bytes.
abbrev pub AllFit : ℕ → List Text → Type 0
AllFit cap [] = Unit
AllFit cap (name ∷ names) = (length name + 2 ≤ cap) × AllFit cap names

-- What the functions of Lab 7 give: `none` is a write past the end of the buffer.
abbrev pub unguarded : {A : Type 0} → Option A → Written A
unguarded none = overflowed
unguarded (some a) = wrote a

-- A text that fits the whole buffer goes through, whether it fits the rest of it or not.
sprintf_s_at-sprintf_at :
    (cap offset : ℕ) (str t : Text)
    → length t + 1 ≤ cap
    → sprintf_s_at cap cap offset str t ≡ unguarded (sprintf_at cap offset str t)
unfolding sprintf_s_at sprintf_at
sprintf_s_at-sprintf_at cap offset str t h =
    let through : leb (length t + 1) cap ≡ true = ground arith in
    elim (Bool-cases (leb (offset + length t + 1) cap)) [
      | inl e ↦ rw (through, e) refl
      | inr e ↦ rw (through, e) refl
    ]

form_loop-visible :
    (cap offset : ℕ) (str : Text) (names : List Text)
    → AllFit cap (visible names)
    → form_loop cap offset str names ≡ unguarded (FileList.form_loop cap offset str (visible names))
unfolding form_loop FileList.form_loop
form_loop-visible cap offset str [] h = refl
form_loop-visible cap offset str (name ∷ names) h = elim (Bool-cases (is_hidden name)) [
  | inl e ↦ rw e (form_loop-visible cap offset str names (rw e at h))
  | inr e ↦
      let h' : AllFit cap (name ∷ visible names) = rw e at h in
      let through =
        sprintf_s_at-sprintf_at cap offset str (name ++ b',' ∷ [])
          (omega (arith, h'.0, length-append name (b',' ∷ []))) in
      rw (e, through)
        (elim (Option-cases (sprintf_at cap offset str (name ++ b',' ∷ []))) [
          | inl o ↦ rw o refl
          | inr (next, o) ↦
              rw o (form_loop-visible cap (offset + (length name + 1)) next names h'.1)
        ])
]

-- `FormFileStr`, with a buffer of three bytes or more into which each name that does not begin with a dot
-- fits, alone and with its comma, does what `form_file_str` of Lab 7 does with these names: it writes the
-- same text and returns the same number, and where the names together do not fit, it writes past the end
-- of its buffer, as that one does, and `sprintf_s` does not end the process before.
pub form_file_str-visible :
    (cap : ℕ) (names : List Text) (str : Text)
    → 3 ≤ cap
    → AllFit cap (visible names)
    → form_file_str cap (some names) str
      ≡ unguarded (FileList.form_file_str cap (some (visible names)) str)
unfolding form_file_str FileList.form_file_str
form_file_str-visible cap names str three h =
    rw (sprintf_s_at-sprintf_at cap 0 str (b'[' ∷ b']' ∷ []) (omega arith))
      (elim (Option-cases (sprintf_at cap 0 str (b'[' ∷ b']' ∷ []))) [
        | inl o ↦ rw o refl
        | inr (begun, o) ↦
            rw (o, form_loop-visible cap 1 begun names h)
              (elim (Option-cases (FileList.form_loop cap 1 begun (visible names))) [
                | inl k ↦ rw k refl
                | inr ((offset, listed), k) ↦
                    rw
                      (k, sprintf_s_at-sprintf_at cap (offset - 1) listed (b']' ∷ []) (omega arith))
                      (elim (Option-cases (sprintf_at cap (offset - 1) listed (b']' ∷ []))) [
                        | inl q ↦ rw q refl
                        | inr (closed, q) ↦ rw q refl
                      ])
              ])
      ])
