-- ===== src/Lib.antt =====
-- Priston Tale EU: the network layer, the shared helpers and both servers.
--
-- The server is a C++ program. A `Socket` (src/Shared/Network/Socket.cpp) reads a client's bytes into
-- one `PacketBuffer` and calls the virtual `ProcessIncomingData`; answers go to a second buffer, from
-- which asynchronous writes are started by a flush timer. `AuthSocket` (src/AuthServer/Auth) is the
-- socket of the authentication server: it looks a packet's header up in the opcode tables and runs the
-- handler, which asks the database and writes packets. The helpers of src/Shared/Common, the
-- configuration and the pool of database connections serve both. `main` of the authentication server
-- (Auth.Startup) reads the configuration, opens the database and starts a `Listener`, which accepts
-- clients and gives each to the thread with the fewest.
--
-- The modules and the code:
--
-- Prelude             machine words with their wrap-around, byte lists, and `Outcome`, a result or a
--                     fault (a failed assert, an access out of range, an exception, overlapping memcpy)
-- Network.PacketBuffer  src/Shared/Network/PacketBuffer.cpp
-- Network.Socket      src/Shared/Network/Socket.cpp: `State` (the members, closing, reading), `Output`
--                     (Write, FlushOut, StartWriteFlushTimer, ForceFlushOut, OnWriteComplete), `Input`
--                     (Open, StartAsyncRead, OnRead, with ProcessIncomingData as an argument),
--                     `HandlerAllocator` (the memory that asio takes for a handler), and `Stream`, the
--                     writer as a step relation: `Ops.step` runs one event, a write of the server, the
--                     timer, a forced flush, the end of an asynchronous write, or a closing
-- Network.StringBuffer, Network.ClientPacket  StringBuffer.h with ServerPacket.h, and ClientPacket.h
-- Network.Listener    src/Shared/Network/Listener.h and NetworkThread.h: the accept loop over the threads
--                     that serve the sockets, and sockets that close meanwhile (Closing)
-- Threads             src/Shared/Platform/Thread: ThreadPool.cpp and ThreadWorker.h (ThreadPool, a step
--                     relation of the events of all threads; `constructed` is the pool as its constructor
--                     leaves it, with the constructing thread in the loop), FunctionCallBack.cpp
--                     (FunctionCallBack)
-- Common              src/Shared/Common: SharedDefines.cpp (Base64, Wired, Strings, Endian), SHA1.cpp
--                     (Hex), Timer.cpp (Timer); and Layout, how C++ lays structures out in memory: scalars
--                     at their natural alignment, an enumeration and an `int` of four bytes
-- Config              src/Shared/Config/Config.cpp
-- Database            src/Shared/Database: ConnectionPool.h (ConnectionPool), Database.cpp and
--                     MySQLConnection.h (Registry), QueryDatabase.cpp and Result.h (Query)
-- Auth                src/AuthServer: AuthStructures.h (Packets), Opcode/Opcodes.cpp (Opcodes),
--                     AuthSocket.cpp (Session), AuthenticationHandler.cpp (Handlers), main.cpp (Startup).
--                     Login, ServerList, Realms and Safety hold what is proved of the handlers,
--                     Reception and Arrival of a login, from the bytes that arrive to the answer. The
--                     members of AuthStructures.h are in Structures, by the layout rules of C++
--                     (Common.Layout), and Images compares the packets with them.
--                     Conversation is a whole connection: its opening with the version packet, and then
--                     reads that run the handlers, between the events of the writer
-- World               src/WorldServer/Server: Opcode/Opcodes.cpp (Opcodes), WorldSocket.cpp (WorldSocket),
--                     WorldStructures.h (Structures)
--
-- State is passed explicitly; a method is a function from the state to an `Outcome` of the next state.
-- A mutex makes a handler one step. Members are natural numbers with the wrap of their width written
-- out. An operation under way keeps its byte count and whether its memory has been moved (`Flight`).
--
-- Loops are recursion over lists or over a number of rounds. `DecodeWired` makes one round for each
-- character that the first one announces; `EncodeWired` has eleven rounds of six bits, more than 62 bits
-- need; nothing else has fuel.
--
-- The MySQL connector, openssl's digest, the clocks, the random ticket, the kernel's sockets and
-- boost's text functions are arguments. Bytes of a packet that nothing writes are arguments too
-- (`Junk`), and so are what a read finds
-- through the pointer that `AuthSocket::DecryptPacket` returns into its dead stack frame (`dead_frame`),
-- what the array of `EncodeWired` held before (`unset`), and whether `Socket::Open` throws at the end of
-- an accept (`Accepted`): an exception of it, which nothing catches, ends the model with a fault. Not modelled: logging, the random numbers of Maths.cpp, and `main`, `Session` and `World` of
-- the world server, which do nothing or do not compile.
pub mod Auth
pub mod Common
pub mod Config
pub mod Database
pub mod Network
pub mod Prelude
pub mod Threads
pub mod World
