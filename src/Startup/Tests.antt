-- ===== src/Startup/Tests.antt =====
-- A user who says what the program does not understand, then yes, an address, and a port.
use innopolis_networks_s.Base.{◌≡◌, refl, List, [], ◌∷◌, length}
use innopolis_networks_s.Text.{Text}
use innopolis_networks_s.Startup.{contact, waiting, alone, ask, ask_port}

abbrev typed : List Text
typed = (b'?' ∷ []) ∷ (b'y' ∷ []) ∷ (b'1' ∷ []) ∷ [] ∷ (b'1' ∷ b'2' ∷ []) ∷ []

is_told : ask length typed ≡ contact (b'1' ∷ []) 2
unfolding ask ask_port
is_told = refl

-- A user who decides nothing, one who stays alone, and one whose ports are all 0.
asks_on : ask length ((b'?' ∷ []) ∷ []) ≡ waiting
unfolding ask
asks_on = refl

stays_alone : ask length ([] ∷ (b'N' ∷ []) ∷ (b'y' ∷ []) ∷ []) ≡ alone
unfolding ask
stays_alone = refl

asks_port : ask length ((b'Y' ∷ []) ∷ (b'1' ∷ []) ∷ [] ∷ [] ∷ []) ≡ waiting
unfolding ask ask_port
asks_port = refl
