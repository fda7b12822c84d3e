-- ===== src/Lib.antt =====
-- Verification of the C programs of a course on computer networks.
--
-- The parts of the repository and the files that model them:
--   Lab 1/ClientServerStack/ClientServerStack.c: a server thread with a stack of integers, and a
--     client, joined by a named pipe. Stack.antt models the stack (`stackPush` is `stack_push`, and so
--     on for each function), Pipe/Server.antt `ServerJob`, Pipe/Client.antt `ClientJob`, Pipe/Codes.antt
--     the request codes. Pipe/Server/Spec.antt is the specification of the server, over lists of
--     integers.
--   Lab 7/linkedlist.c and Lab 7 Windows/PeerToPeer/linkedlist.c: a doubly linked list, in
--     LinkedList.antt (`insertVal` is `insert_val`, and so on). The two versions differ in `deleteVal`
--     alone: `delete_val` and `delete_val_windows`.
--   Lab 7/node.c: Peers.antt models the pool of known nodes (`remove_inactive_node`, `parse_peer`,
--     `sync_handler`) over LinkedList.antt; Pools.antt the pool of nodes and the pool of files in one
--     memory (`parse_node`, `send_sync`, `syncer`); Messages.antt and FileList.antt the
--     texts that nodes send (`form_node_msg`, `form_file_str`) and how they are taken apart; Transfer.antt
--     the transfer of files (`download_file`, `file_request_handler`); Incoming.antt the loop that starts
--     the threads (`incoming_handler`); Retrieve.antt what the user does (`retrieve_file`, `user_repl`).
--     Text.antt has the strings and `strtok`.
--     Exchange.antt joins `sync_handler` of one node with `send_sync` of another, and Startup.antt has
--     `main`.
--   Lab 7/networking.c: Ping.antt (`recvsend`, `sendrecv`, `ping`) and Networking.antt (the functions
--     that make and name sockets), with Networking/Sockets.antt for what the calls make of a socket.
--   Lab 7/code_archive.c, an array of sockets that no program includes: SocketPool.antt (`add_node`,
--     `remove_node`).
--   Lab 7 Windows/PeerToPeer/PeerToPeer.c, the same node for Windows: PeerToPeer/Transfer.antt models
--     `DownloadFile` and `FIleRequestHandler`, PeerToPeer/Sync.antt `SyncHandler`, PeerToPeer/Pool.antt
--     `RemoveInactiveNode`, PeerToPeer/Messages.antt what `ParsePeer` and `ParseNode` read, and
--     PeerToPeer/Retrieve.antt `RetrieveFile` and `UserRepl`. Lab 7 Windows/PeerToPeer/networking.c:
--     PeerToPeer/ByteOrder.antt (`htonlO`, `ntohlO`) and PeerToPeer/Networking.antt (`InitTCPServer`,
--     `InitTCPClient` and the functions that name sockets). PeerToPeer/FileList.antt models `FormFileStr`,
--     PeerToPeer/Syncer.antt `SendSync` and `Syncer`, PeerToPeer/Startup.antt `main`.
--   Lab 4/server.c: StudentServer.antt, a server that answers one client at a time.
--     Lab 4/client.c: StudentClient.antt; StudentClient/Session.antt joins the two.
--   Lab 5/server2.c: DatagramServer.antt, a server that starts a thread for each datagram.
--     Lab 5/client.c: DatagramClient.antt.
--   Socket.antt is what the calls of the sockets give, for all of these.
--
-- Memory.antt is the memory that these programs work on: a map from addresses to objects, with
-- commands that crash on an access through NULL or to an address with no object of the wanted kind.
-- The allocator is a parameter: it answers NULL or an address that is not in use. A structure that C
-- code changes through a pointer to a local or static variable is passed by value and returned.
--
-- What the pipe, the sockets and the user do comes in as data: a list with, for each round, the
-- results of the calls. `lstrcmpiA`, `memcmp`, `strtoul`, the text of a number that `%d` writes,
-- `htonl`, `ntohl`, `htons`, `ntohs`, `inet_ntop`, and how much of a written file stdio has flushed
-- are parameters.
--
-- Numbers: sizes are `size_t` of 64 bits, and `size_inc` and `size_dec` wrap around; the theorems that
-- add an element ask for room below the greatest size. Integers are ℤ: the programs only store, send
-- and print them. The index `int i` in the loops of linkedlist.c is taken without its bound,
-- and a pool of nodes is taken to have fewer than 2^31 of them.
-- Fuel: `stackClear` gets the size and one, since each round takes one off the size, and so does the
-- display, which walks as many nodes; the theorems show that this is enough.
-- The loop of `strtok` over a list gets the length of the text and one: each token takes a byte at
-- least, and Text/Tokens.antt shows that more fuel gives nothing more.
--
-- The texts of a sync, the names that `parse_node` copies out of them and the path that `retrieve_file`
-- builds are held against the size of their buffers: a result `none`, `overflowed` or a crash stands
-- for a write past the end. In Lab 7 the names of a node's files have to fit the 24 bytes of `filename`;
-- its `node_name` is never set, which Messages/Nameless.antt and Exchange/Nameless.antt look at, where
-- Exchange/Synced.antt is about nodes that have a name. Whether a signal ends the client of Lab 4, whose
-- `sendto` may raise SIGPIPE, comes in as data.
-- A thread of `incoming_handler` reads its argument late, and the argument may be no more then
-- (`lost`). What a connection gives to `download_file` is data: the code sends no name of a file there,
-- for which `incoming_handler` waits, and the two are not joined here; Transfer.antt joins
-- `download_file` with the thread that sends a file.
--
-- Not modelled: `IncomingHandler` of Lab 7 Windows, the text of prompts and messages, the directory to
-- share, the creation of threads and pipes, the closing of handles other than the client's, and
-- pointers into the middle of an object. The loop over files in `ParseNode` of Lab 7 Windows, whose
-- `strcpy_s` copies between overlapping strings, which C does not define, is a crash. In Exchange.antt
-- each `recv` gets what one `send` has sent: how TCP joins and splits what is sent is left out.
pub mod Base
pub mod Memory
pub mod LinkedList
pub mod Stack
pub mod Pipe
pub mod Socket
pub mod Text
pub mod FileList
pub mod Messages
pub mod Pools
pub mod PeerToPeer
pub mod Ping
pub mod Transfer
pub mod StudentServer
pub mod Peers
pub mod Incoming
pub mod Retrieve
pub mod DatagramServer
pub mod Exchange
pub mod SocketPool
pub mod StudentClient
pub mod Networking
pub mod Startup
pub mod DatagramClient
