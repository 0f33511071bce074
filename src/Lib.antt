-- ===== src/Lib.antt =====
-- HTTP Storm: the core of the C++ server of HTTP SERVER/HTTP Server, its state and its operations.
--
-- A connection feeds what its socket gives it to an HTTP parser. A complete request goes through the
-- chain of middlewares to the router or to the static files, and the response is serialized into the
-- buffer of the connection and written as the socket takes it.
--
-- Files, and what they model (paths from the repository's root, in HTTP SERVER/HTTP Server):
--   Common       shared names, tests on numbers, lists, bytes, maps, decimal and hexadecimal numbers
--   Http         include/http_parser.hpp and src/http_parser.cpp: messages and HttpResponse
--   Url          src/http_parser.cpp: url_decode and parse_query_string
--   Parser       src/http_parser.cpp: HttpParser; `feed` is the function of that name, with the states
--                REQUEST_LINE, HEADERS and BODY as feed_request_line, feed_headers and feed_body
--   Regex        the part of std::regex that a router's patterns use
--   Router       src/router.cpp: registration, compile_pattern, match and dispatch
--   Middleware   src/middleware.cpp: MiddlewareChain and the middlewares of namespace middleware
--   Static       src/static_file_server.cpp: StaticFileServer, over a file system
--   Connection   src/connection.cpp: Connection, over a socket; Connection.Client is a reader of
--                responses, an independent description of what `serialize` writes
--   ThreadPool   include/thread_pool.hpp and src/thread_pool.cpp, one step of one thread at a time
--   Config       include/config_loader.hpp and src/config_loader.cpp, over a JSON library
--   Tls          include/tls_context.hpp and src/tls_context.cpp: TlsContext, over OpenSSL
--   Logger       include/logger.hpp and src/logger.cpp: Logger, over spdlog
--   Server       src/server.cpp: the chain of middlewares and dispatch_request; Server.Routes: the
--                default routes; Server.Table: the table of connections, over the interface
--                ConnectionOps that Server.Handles fills; Server.Lifecycle: construction, the
--                descriptors, stop and the destructor, over what the system's calls answer;
--                Server.EventLoop: start and the loop, over what epoll_wait reports and what the
--                constructor of a connection ends with
--   Main         src/main.cpp: the command line, the configuration, the exit codes and /api/echo
--
-- Bytes are numbers, strings and vectors of char are lists of them, and a std::unordered_map is an
-- association list; the order in which one is walked is the parameter `walk` of `serialize`. A
-- std::size_t wraps at 2 ^ 64. What a component asks of the world is explicit: the readings of clocks
-- and random numbers in Middleware.World, what recv, send and SSL_accept answer in Connection.Socket,
-- the file system in Static.FileSystem, zlib's deflate as an argument of `compress`, and the
-- application as the argument on_request of a connection. The double of the rate limiter is read as
-- the exact number, and the file times of Static as numbers.
--
-- Loops are recursions on what they consume: the segments, routes and middlewares of a list, and what
-- a socket has in store. Two run on fuel, the header lines of `feed_headers` and the pairs of
-- parse_query_string, both with one round more than there are bytes, and each round takes at least
-- one byte away. The digits of a number n are printed with the fuel n + 1, and each takes a division.
--
-- The event loop is a recursion on the rounds that epoll_wait gives it; a signal's handler runs during
-- a wait. The jobs in the queue of a server are run by a recursion on their number.
--
-- Not modelled: threads that run jobs of the server at the same time, and signals that come between
-- two instructions of the loop's body; the options of sockets; exceptions that a handler throws inside
-- the chain of middlewares (those of create_ssl, of the set-ups and of the JSON library's parse are);
-- writes over TLS of 2 ^ 31 bytes and more, whose length an int does not hold; the several readings of
-- the clock during one cleanup, for which one stands; the messages that main and the server log or
-- print; the futures of the pool's tasks; Server::wait, which polls a flag; the wire format of TLS;
-- and a router's patterns with characters of the regex grammar other than `*`, `.` and `?`, which
-- `regex` refuses.

pub mod Common
pub mod Http
pub mod Url
pub mod Parser
pub mod Static
pub mod Regex
pub mod Router
pub mod Middleware
pub mod Connection
pub mod ThreadPool
pub mod Config
pub mod Server
pub mod Tls
pub mod Logger
pub mod Main
