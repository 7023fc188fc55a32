-- ===== src/Lib.antt =====
-- A model of the server of a real-time location sharing application (FISAC1), and proofs about it.
--
-- The server is one thread around `select`. Browsers connect to it over TCP and open a WebSocket
-- connection; they log in or register, which the server asks a backend on 127.0.0.1 for over HTTP;
-- the locations that a logged-in client sends are passed on to all other logged-in clients.
--
--   Base        shared names: tests and lists on the native numbers, C strings, 64-bit words, and
--               `Outcome`, the runs of C code over the state of the operating system. A run ends with
--               a value, meets undefined behaviour (`fault`), or uses up the fuel of a loop (`stuck`).
--               Base/Keeping has the rules for what the parts of a program keep; Network/Keeping,
--               Websocket/Keeping, Handshake/Keeping and Protocol/Handlers apply them to the code,
--               for Sockets and Settling alike.
--   Winsock     WinSock2, a parameter: each call is a function on the state `Os`. `IsTcp` says that
--               connections are streams of bytes, `IsDraining` that peers read, `IsDelivering` that
--               a blocking `recv` returns the bytes that are sent.
--   Json        what is used of cJSON, a parameter.
--   Base64      FISAC1/src/base64.c: base64_encode. Base64/Reference writes the encoding of RFC 4648 with
--               letters of its own, and Base64/Decoding reads it by ranges of characters.
--   Sha1        FISAC1/src/sha1.c: sha1_transform, sha1_init, sha1_update, sha1_final. What the code
--               reads behind its arrays is a parameter. Sha1/Reference is RFC 3174 with constants and
--               round functions of its own.
--   Network     FISAC1/src/network.c: robust_send, robust_recv.
--   Websocket   FISAC1/src/websocket.c: recv_exact, swap_uint64, websocket_frame_recv,
--               websocket_frame_send. Websocket/Rfc describes the frames of RFC 6455.
--   Handshake   FISAC1/src/websocket.c: websocket_handshake.
--   HttpClient  FISAC1/src/http_client.c: http_post_json.
--   Client      FISAC1/include/server.h: ClientInfo, Server.
--   Escape      FISAC1/src/protocol.c: json_escape_minimal.
--   Backend     FISAC1/src/protocol.c: the texts of requests and answers, and how the backend's
--               answers are read. Backend/Replies says, apart from the code, what an answer means.
--   Protocol    FISAC1/src/protocol.c: handle_message and the handlers, log_event.
--               Protocol/Credentials says, apart from the code, what a login and a registration ask
--               the backend, which lengths are allowed, and what is answered.
--   Setup       FISAC1/src/socket.c: starting WinSock2, the listening socket and its options.
--   Server      FISAC1/src/server.c and FISAC1/src/main.c: the slots of the clients, the event loop,
--               server_broadcast, server_shutdown, signal_handler. Server/Reachable has the states
--               between two rounds of the loop.
--   Sockets     which sockets the process has open, through all of the above. `HasSockets` says which
--               calls of WinSock2 open and close one.
--   Exchange    what one request to the backend does on its own connection and leaves alone elsewhere.
--               `IsApart` says that opening and closing a connection does nothing on the others.
--   Answers     what the server says: to a client with credentials or without a login, to all others
--               with a location, and to a new connection. Server, Protocol, Handshake and HttpClient
--               together.
--   Settling    which waits end, over the same files, and which do not.
--   Sqlite      SQLite, the clock and `rand`, a parameter; `IsSqlite` says what three statements do,
--               whose SQL it writes out.
--   Database    FISAC1/src/database.c: djb2_hash, hash_password, generate_token, db_init, db_close and
--               the functions on users, sessions, locations and logs. The Makefile does not build
--               the file, and no other file calls it.
--   Tests       every theorem with a hypothesis at a concrete input, on a scripted network and a
--               database in memory.
--
-- An operation with a loop over the network takes fuel. `recv_exact` computes its own, 2001 rounds
-- for each byte and 2001 more, since it gives up after 2000 idle rounds. `robust_send` waits as long
-- as the peer does not read, so its fuel is bounded with the measure `patience` of `IsDraining`: a
-- round for each byte and for each wait. A request to the backend takes at most 8191 rounds of each of
-- its loops, since its buffer has 8192 bytes, and no loop of a pass over the slots takes more than 12300
-- rounds besides the waits. The handshake has no bound, since it waits for the request. The main loop
-- runs until SIGINT; its rounds are fuel, and the signal is looked at between two rounds. The state
-- `Os` has whether it came since `server_init` has set `running`: one that comes earlier is lost, since
-- `server_init` sets `running` again. A call of
-- WinSock2 is a function here, so it always returns; a blocking `recv` that does not return is outside
-- the model.
--
-- Not modelled: console output; `getsockopt`, whose result is only printed; freeing the cJSON trees.
-- FISAC1/src/cJSON.c is a third-party library.
pub mod Base
pub mod Base64
pub mod Sha1
pub mod Winsock
pub mod Network
pub mod Websocket
pub mod Handshake
pub mod HttpClient
pub mod Exchange
pub mod Json
pub mod Client
pub mod Escape
pub mod Backend
pub mod Protocol
pub mod Sockets
pub mod Setup
pub mod Server
pub mod Answers
pub mod Settling
pub mod Sqlite
pub mod Database
pub mod Tests
