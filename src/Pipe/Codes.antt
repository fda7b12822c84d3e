-- ===== src/Pipe/Codes.antt =====
-- The request codes of Lab 1/ClientServerStack/ClientServerStack.c (lines 6 to 14) and what passes
-- through the pipe.
use innopolis_networks_s.Base.{ℤ, pos, negsuc}

abbrev pub server_help : ℤ
server_help = negsuc 1

abbrev pub server_exit : ℤ
server_exit = negsuc 0

abbrev pub stack_peek_code : ℤ
stack_peek_code = pos 0

abbrev pub stack_pop_code : ℤ
stack_pop_code = pos 1

abbrev pub stack_push_code : ℤ
stack_push_code = pos 2

abbrev pub stack_new_code : ℤ
stack_new_code = pos 3

abbrev pub stack_size_code : ℤ
stack_size_code = pos 4

abbrev pub stack_is_empty_code : ℤ
stack_is_empty_code = pos 5

abbrev pub stack_display_code : ℤ
stack_display_code = pos 6

-- `int requestBuffer[2]`
pub record Request : Type 0 where
  pub code : ℤ
  pub arg : ℤ
