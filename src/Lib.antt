-- ===== src/Lib.antt =====
-- raknet-sys: a Rust crate around the C++ networking library RakNet, and the programs that use it.
--
-- Parts and how they interact
--   raknet-c/raknet_types.h declares the C enumerations and structs, and raknet-c/rakpeer.cpp wraps
--   each method of RakNet's class `RakPeerInterface` into a C function. src/rakpeer.rs calls these
--   functions from Rust: it converts addresses, GUIDs, descriptors and codes, builds messages, and
--   copies received packets. examples/proxy.rs is a client of src/rakpeer.rs: its server hands the
--   messages of each client to a connection of that client's own, and the answers back.
--   examples/chat_server.rs and examples/chat_client.rs send the lines of a console and print what they
--   receive, in two threads. The other two C files wrap classes of their own: raknet-c/libcat.cpp,
--   which src/libcat.rs calls, the handshake and the encryption of the library cat, and
--   raknet-c/bitstream.cpp, which nothing calls, bit streams.
--
-- Files
--   Prelude           shared names, tests, lists, machine integers; Outcome: how a computation ends (a
--                     value, a panic, undefined behaviour, no fuel left); State: calls on one object;
--                     Keeps, Avoids: rules for computations that leave something of the object as it
--                     is, or that do not panic in some way
--   Native            raknet-c/raknet_types.h: Constants, Enums, Structs; Pointer: null, valid and
--                     dangling pointers; Platform: byte order and address families
--   Peer.Interface    the class `RakPeerInterface`, as a record that everything below takes as its
--                     parameter `lib`, with the state of an instance as the type `lib.Peer`
--   Peer.Shim         raknet-c/rakpeer.cpp, one definition `rak_peer_x` for each function `RakPeer_X`
--   MessageId         `DefaultMessageIDTypes` of src/rakpeer.rs
--   Wrapper           src/rakpeer.rs: Codes (the enumerations), Address (`SystemIndex`,
--                     `SystemAddress`, `RakNetGUID`, `AddressOrGUID`), Socket (`SocketDescriptor`),
--                     Startup, Sender, Packet, Receive, Connect, Text and Duration (the conversions
--                     for C), Methods (the other methods, `get_last_ping` for `GetLastPing` and so on),
--                     Widths (the ranges of the Rust and the C types)
--   Crypto            src/libcat.rs and raknet-c/libcat.cpp: Interface (the classes of the library cat, as
--                     the parameter `cat`), Shim, Encryption (`AuthenticatedEncryption`), Handshake
--                     (`ClientEasyHandshake`, `ServerEasyHandshake`)
--   BitStream         raknet-c/bitstream.cpp
--   Lifetime          the objects that the values of src/rakpeer.rs and src/libcat.rs own: their `new`
--                     and `Drop`, and programs of them; bit streams likewise
--   Proxy             examples/proxy.rs: Connection (`ProxyConnection`), Server (`RakNetProxy`). In
--                     Server, Ledger and Life compare whole lives of a proxy with a ledger of
--                     messages, Progress has what one round needs to return, and the loop of `main`
--                     with what arrives between its rounds (Forever), and Unconnected the packets
--                     at which it panics
--   Chat              examples/chat_server.rs and examples/chat_client.rs: Text and Console (a line,
--                     its command and the calls), Receiver (what is printed), Setup (the start),
--                     Threads (the two threads)
--   Tests             a simulated library, and each result at a concrete input
--
-- State and operations
--   A method of `RakPeer` takes the instance and returns its result with the instance afterwards. A
--   panic is a value of the outcome and ends the computation. An integer is a natural number, with the
--   wrap-around of each cast written out; `int` parameters are integers of either sign. A string is the
--   list of its bytes, and a line of a console the list of its characters. A hash map is the list of its
--   entries. The printed lines of the proxy are left out, and those of the chat programs are values with
--   what they show. The threads of a chat program take steps in any order, where one command or one
--   round of the receiving loop is one step; between the steps the network may change the peer.
--
-- Fuel
--   `ReceiveAll` loops until the library has no packet left, so its model takes fuel, one unit for each
--   round. The results about it ask for more units than packets that wait, and a packet that arrives
--   during a call counts as waiting only for the next call.
--
-- The library
--   Nothing is assumed of RakNet in the definitions. What a result needs of it is a record of laws:
--   Wrapper.Receive.Contract (the queue of packets) and Wrapper.Sender.Contract (the log of
--   messages), both as raknet-c/rakpeer.h documents the methods; Starting, Undisturbed
--   (Proxy.Connection) and Silent (Chat.Console.Sends) have what the other calls leave as it is. That a
--   call succeeds is not assumed: Fault (Proxy.Connection.Returns) has the answers of the library at
--   which the proxy panics. Crypto.Encryption.Channel and Crypto.Handshake.Agreement have the laws of the
--   library cat. Tests has libraries with these laws. Four C functions that src/rakpeer.rs calls are
--   defined nowhere in the repository, and are a record of functions of their own.
--
-- Not modelled
--   RakNet itself (a git submodule), the build script and the generated bindings, src/ffi.rs and
--   src/lib.rs, the sleeps of the loops, and the format of the printed statistics and pings. An
--   allocation that fails is not modelled, and no address is given twice.
pub mod Prelude
pub mod Native
pub mod Wrapper
pub mod Peer
pub mod MessageId
pub mod Proxy
pub mod Chat
pub mod BitStream
pub mod Crypto
pub mod Lifetime
pub mod Tests
