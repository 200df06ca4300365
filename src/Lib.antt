-- ===== src/Lib.antt =====
-- LiteChatServer, a chat server in C++: clients connect over TCP, log in, keep friends and exchange
-- messages; users, friendships and messages are in MySQL.
--
-- The parts, and how they interact. connection/server.cpp accepts clients, gives each a session and a
-- task of the thread pool, reads framed messages, parses them and hands a Request to one of three
-- managers: system/user_manager.cpp, system/friend_manager.cpp, system/message_manager.cpp. These
-- read and write the tables through the data access classes (system/user_dao.cpp,
-- system/friend_dao.cpp, system/message_dao.cpp), the sessions through system/session_manager.cpp,
-- and send through a callback to Server::SendData. A heartbeat thread drops silent clients.
--
-- Files, and the code that each is about (all paths under src/ of the repository):
--   Common      strings of bytes, tests, lists, maps, integers over the native numbers
--   Host        what the server stands on: collation, MD5, jsoncpp; each a field with its laws
--   Json        the documents of jsoncpp
--   Sessions    connection/client_session.cpp, system/session_manager.cpp; a ClientSession* is the
--               entry of its socket, AddSession is `add_session`, and so on
--   Database    sql/init.sql and the statements of the data access classes, one function for each
--   World       the state that the parts share, the actions on it, and the frame of the methods of
--               the data access classes (World.Statement)
--   UserDao, FriendDao, MessageDao   the methods of the classes of the same names
--   Wire        PackageMessage, ParseMessageHeader, SendData, ReceiveData of connection/server.cpp
--   Protocol    Request, Response and UserStatus of system/user_manager.h
--   Users, Friends, Messages   the three managers; a handler `handle_login` is HandleLogin
--   Server      connection/server.cpp: Server.Parsing and Server.Dispatch are DispatchRequest,
--               Server.Connections is AcceptConnections, HandleClient and Stop, Server.Heartbeat is
--               HeartbeatCheckThread, Server.Steps puts them together as a transition system;
--               Server.OwnTable is the table of sessions that the class has beside the manager's
--   ThreadPool  system/thread_pool.cpp, the workers as a transition system in ThreadPool.Workers,
--               their moves alone in ThreadPool.Moves and, behind a stop, ThreadPool.Draining
--   DbManager   system/db_manager.cpp, the pool of database connections: who holds which connection
--               in DbManager.Sharing, how many there are in DbManager.Growth, the view of a client in
--               DbManager.Bag and DbManager.Refinement, the destructor in DbManager.Destruction
--   Logger      system/server_logger.cpp with a directory of named files; Logger.Filter is
--               FilterSensitiveInfo
--   ExceptionHandler   system/exception_handler.cpp
--   Monitor     system/server_monitor.cpp, its thread and what it reports
--   Lifecycle   Start, Stop and the destructor of connection/server.cpp, and main.cpp
--   Tests       runs of the model, and each theorem at a concrete input, also in its child modules
--
-- State and errors. An action is a function from a World to a value and a World. What the outside
-- decides is in the World as two lists: the outcomes of the statements to come, where `false` is an
-- sql::SQLException, and the bytes that each call of send() accepts, where 0 is an error; so a theorem
-- about every World speaks of every behaviour of database and network. An exception of jsoncpp is
-- `none`. The tables are lists of rows; a statement that breaks a key, a width or a foreign key has no
-- result, which is an SQLException too. Numbers are natural: the int and time_t values here are never
-- negative, but for Request::count, which is an integer; the header of a message is 32 bits wide.
--
-- Bounds and fuel. The loop of SendData has one unit of fuel more than bytes to send, that of
-- ReceiveData one more than bytes wanted, and the loop of HandleClient one more than the bytes of the
-- stream; each turn takes at least one byte. The loop of FilterSensitiveInfo has one more than bytes
-- of the message: each turn brings the position nearer to the end, also when the string shrinks.
--
-- Steps. One accepted client, one message, one end of a client, one round of the heartbeat check, one
-- Stop is one step, and steps interleave in any order. Races inside a step, between the threads of
-- two clients, are not modelled, nor is the moment between accept() and the increment of the counter.
-- A client may send a message whether it has a session or not: the heartbeat check removes sessions
-- whose sockets are still read. What needs a session to be there says so.
-- A socket that accept() returns has no session: after an exception the code closes a socket before
-- it removes the session, and a descriptor that is used again in between is outside the model.
--
-- A waiting worker of the thread pool may go on whenever its condition holds. The destructor sets the
-- flag and calls notify_all() without the mutex, so that a worker may miss it and wait for ever: such
-- lost wakeups are not modelled, and no theorem says that the join in the destructor returns.
--
-- The two pools stand by themselves: in Server a task is served as soon as its client speaks, and a
-- statement has the connection it needs, since GetConnection waits until there is one.
--
-- The time as text. localtime() and strftime() are the parameter LocalTime of the logger, two functions
-- from a time to a text.
--
-- The life of the program. Lifecycle has the outcomes of socket(), setsockopt(), bind() and listen()
-- as a record, the calls of close() as a list, and `none` where a join() waits for ever or a thread is
-- deleted while it is joinable. The join of the accept thread returns once Stop has forgotten the
-- listening socket; whether the ten workers return that ~ThreadPool joins is a parameter. The signals
-- are SIGINT and SIGTERM and come one after the other, once Start has returned. SIGPIPE, which ends the
-- program when send() meets a socket that is closed, is not modelled: send() fails instead.
--
-- Not modelled: the lines that the modelled code logs, and its console output; the getters, which are
-- fields; the turns of the accept loop in which accept() fails; a signal during Start or during another
-- Stop; sql/SQLCommand1.sql and sql/SQLCommand2.sql, which are queries for an administrator.
pub mod Common
pub mod Json
pub mod Host
pub mod Sessions
pub mod Database
pub mod World
pub mod UserDao
pub mod FriendDao
pub mod MessageDao
pub mod Wire
pub mod Protocol
pub mod Users
pub mod Friends
pub mod Messages
pub mod Server
pub mod ThreadPool
pub mod DbManager
pub mod Tests
pub mod Logger
pub mod ExceptionHandler
pub mod Monitor
pub mod Lifecycle
