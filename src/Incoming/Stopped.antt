-- ===== src/Incoming/Stopped.antt =====
-- The threads of `incoming_handler` that begin when its loop has ended.
use innopolis_networks_s.Base.{◌≡◌, none, List}
use innopolis_networks_s.Incoming.{Incoming}

module _ {F : Type 0} where
  -- `free(handler_sock)` has come, and the block of the `switch` has been left.
  abbrev IsOver : Incoming F → Type 0
  IsOver t = (t.handler_sock ≡ none) × (t.file_request ≡ none)
