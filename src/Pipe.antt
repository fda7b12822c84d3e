-- ===== src/Pipe.antt =====
-- The two ends of the pipe in Lab 1/ClientServerStack/ClientServerStack.c: the server thread with its
-- stack, and the client. What Windows answers (the pipe, the console) comes in as data.
pub mod Codes
pub mod Server
pub mod Client
mod Tests
