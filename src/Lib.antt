-- ===== src/Lib.antt =====
-- Verification of irc-relay-server.
--
-- The program is an IRC server in one process: an event loop (`Server`) that owns the connections,
-- an application (`IrcApplication`) that knows the protocol, and below them a message parser, the
-- channels, the client registry and the command line.
--
--   Text           strings as lists of bytes, and the functions of <cctype> in the "C" locale
--   Message        include/IrcMessage.hpp, src/IrcMessage.cpp: parseLine, toLine, consumeBuffer
--   Replies        src/Replies.cpp: formatMessage, numeric, error, hostmask
--   Channel        include/Channel.hpp, src/Channel.cpp
--   Registry       src/ClientRegistry.hpp, src/ClientRegistry.cpp; its children
--                  Index and Naming: the nickname index
--   RuntimeConfig  src/RuntimeConfig.hpp, src/RuntimeConfig.cpp: the options of the command line
--   Connection     include/Connection.hpp, src/Connection.cpp, src/ConnectionLimits.hpp
--   Events         include/EventManager.hpp: the interface to the event backend
--   World          the state of the whole program: the fields of IrcApplication and of Server
--   Server         src/Server.cpp: findConnection, refreshInterest, disconnect, sendTo, queueRawTo
--   Backend        src/EpollEventManager.cpp, src/KqueueEventManager.cpp: the event backends, and
--                  the table of interests that both implement
--   EventLoop      src/Server.cpp: handleClientEvent, acceptReadyClients, closeAllConnections
--   Lifecycle      src/Server.cpp: start, pollOnce, run, stop, the destructor; Process: src/main.cpp
--   App            Relay: sendRaw and removeClientState; Support: src/ApplicationSupport.cpp;
--                  Registration: src/RegistrationCommands.cpp; Messaging:
--                  src/MessagingCommands.cpp; Channels and Modes: src/ChannelCommands.cpp;
--                  Dispatch: src/IrcApplication.cpp; Rooms, Consistent and Changes: the state;
--                  Invariant: the rules under which all handlers keep a predicate of the world,
--                  which EventLoop/Keeps extends to the events; EventLoop/Consistency and
--                  EventLoop/Sound are two such predicates, Lifecycle/Reachable the steps of the
--                  process until main clears the server's handlers
--   Tests          a small server on which the theorems are applied
--
-- A handler is a function from the world to the world. A bool that the code returns is the second
-- component of the result; an exception is a Boolean or a value of `RuntimeConfig.Result`.
-- `Server::disconnect` calls the application back, which writes to other clients, which can
-- disconnect them in turn: `App.Relay.send_within` nests these calls on fuel. Each disconnection
-- takes a connection out of the table first, so the number of connections is enough.
-- The other loops recurse on a list, or on fuel of the length of the string that they consume.
-- std::size_t is a number below 2 ^ 64, with the wrap-around written out where the code adds or
-- subtracts. Maps and sets are lists in the order of their keys.
--
-- The process runs on a list of rounds, each with what `wait` returns in it and whether a signal has
-- come before it; a result `none` says that the list ends while the process still runs.
--
-- Parameters of the model: the kernel behind each backend, with the documented laws of epoll_ctl and
-- kevent (`EpollKernel`, `KqueueKernel`), and for the server the event backend, with the laws that it
-- relies on (`Events.EventManager`; `Backend.Epoll.Manager` is the epoll backend as one).
--
-- Beside its result, `send_loop` returns the bytes that each call of `send` is handed.
--
-- Not modelled: the system calls (what `recv`, `send`, `accept`, `bind` and the clock return is an
-- argument), logging and error reports, the usage message, the flags and the ownership of
-- descriptors. `Server::run` stands for the rounds that it is given. Where the event manager is
-- destroyed, `has_manager` is false and the state that it had is left in place.
pub mod App
pub mod Backend
pub mod Channel
pub mod Connection
pub mod EventLoop
pub mod Events
pub mod Lifecycle
pub mod Message
pub mod Prelude
pub mod Registry
pub mod Replies
pub mod RuntimeConfig
pub mod Server
pub mod Tests
pub mod Text
pub mod World
