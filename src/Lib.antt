-- ===== src/Lib.antt =====
-- libtnet: an event loop with TCP connections, HTTP, websockets and a redis client, in C++. Paths
-- are from the repository's root.
--
-- The parts and how they interact. `IOLoop` (src/ioloop.cpp) waits for descriptors and timers and
-- calls handlers. A `Connection` (src/connection.cpp) reads and writes one socket and passes what it
-- reads to a callback; a `WsConnection` (src/http/wsconnection.cpp) is such a callback once an HTTP
-- connection has been upgraded, and cuts the bytes into frames and messages. A `TimingWheel`
-- (src/timingwheel.cpp) is driven by one timer of the loop and gives many handlers their timeouts.
-- `StringUtil` (src/stringutil.cpp) and `HttpUtil` (src/http/httputil.cpp) are the texts of HTTP. A
-- `TcpServer` (src/tcpserver.cpp) makes the connections and checks the idle ones; an `HttpConnection` is the callback of such a connection, an
-- `HttpParser` that fills an `HttpRequest`, and gives it to the `HttpServer`, which calls handlers.
--
-- What is modelled, and where.
--   Base: names of the libraries, tests, lists, bytes, numbers in decimal, `std::map` and
--     `std::multimap`, and `Outcome`, which is a value or a fault: a read out of bounds, the call of an
--     empty function, a failed assertion, an exception for a bad argument or a text that is too long, a
--     division by zero, or a loop that has used up its fuel.
--   TimingWheel: src/timingwheel.h and .cpp. `add`, `update`, `remove`, `start`, `stop` and
--     `on_timer` (`onTimer`) are functions on the record of the fields. What a handler does to the
--     wheel while a tick runs is a list of calls, chosen by the parameter `script`; `fire` is the
--     loop over the bucket. Buckets and Slots have the lemmas on entries, Invariant the shape of the
--     wheel, Firing the ticks, Firing/Promise the calls that `add` promises.
--   Connection: src/connection.h and .cpp. The parameter `callback` is the program's callback, which
--     may use the connection; what `recv`, `writev` and `connect` answer are arguments, and `log`
--     holds what is asked of the loop and the socket. `step` and `run` put all operations together.
--     Connection/Stream treats the bytes to send, Connection/Closes and Connection/Closing the
--     descriptor.
--   WsConnection: src/http/wsconnection.h and .cpp. One function for each handler of a frame;
--     WsConnection/Send has `sendFrame` and its callers, WsConnection/Receive the payload, the
--     messages and `onRead`. The callback of the program and the connection are a log of calls.
--     What `reserve` can give is the field `max_reserve`; for more it throws.
--     Receive/Handlers, Receive/Turn and Receive/Loop treat the states, Receive/Frames,
--     Receive/Masking, Receive/Heads, Receive/RoundTrip and Receive/LongFrames one frame,
--     Receive/Messages the messages.
--   HttpParser: src/http/httpparser.h and .cpp, the callbacks of the third-party parser, which is the
--     parameter `http_parser_execute`; the virtual functions are a record, `Virtual`. HttpParser/Headers
--     treats names and values that come in pieces.
--   HttpRequest, HttpResponse: src/http/httprequest.cpp and httpresponse.cpp. HttpRequest/Form has the
--     forms, HttpRequest/Json the members of a JSON document, HttpRequest/Number and HttpRequest/Text
--     numbers and lines; HttpRequest/Form/Ends treats the loop over a form, HttpRequest/Body what is
--     left alone. The parsers of URLs and of JSON are parameters.
--   HttpConnection: src/http/httpconnection.cpp, an instance of `Virtual` on a `Session`; what it asks
--     of the connection and the program is the log of `Wire`. HttpConnection/Requests composes it with
--     HttpParser, HttpConnection/Limits treats the limits.
--   HttpConnector: src/http/httpconnector.cpp, the other instance of `Virtual`, on an `Exchange`;
--     HttpConnector/Responses composes it with HttpParser.
--   Connector: src/connector.h and connector.inl, over the events of Connection. HttpClient:
--     src/http/httpclient.cpp; HttpClient/Kept treats which connector a request gets,
--     HttpClient/Counted and HttpClient/Places where a connector is. WsClient: src/http/wsclient.cpp.
--   HttpServer: src/http/httpserver.cpp and httphandler.cpp. `on_request` is the `callback` of an
--     HttpConnection, `served` puts them together. HttpServer/Authorised treats who is served,
--     HttpServer/Registered the tables of handlers.
--   WsUtil: src/http/wsutil.cpp, the handshake of a WebSocket, with base64 and sha1 as parameters.
--     WsUtil/Handshake treats what a server answers, WsUtil/Client what a client sends.
--   Poller: src/poller.cpp on Linux; `poll` works on an IoLoop, and Poller/Rounds composes them.
--   Process, Timer, Acceptor, Notifier, Signaler, Address, SockUtil, Log: src/tprocess.cpp, timer.cpp,
--     acceptor.cpp, notifier.cpp, signaler.cpp, address.cpp, sockutil.cpp and log.cpp, on Linux, with
--     the answers of the system as arguments. Process/Workers treats the children, Timer/Deadline the
--     time that is set, Timer/Watching what the loop watches, Acceptor/Descriptors what becomes of
--     descriptors, Acceptor/Listening an address that cannot be bound, SockUtil/Tries the tries to
--     connect, Log/Names what is left of the name of a file, Signaler/Served which signals are served.
--   IoLoop: src/ioloop.h and .cpp, src/ioevent.h. The answers of the poller are arguments; IoLoop/Table
--     has the lemmas on the vector of handlers, IoLoop/Watched the table that it implements,
--     IoLoop/Refine the proof; IoLoop/Reuse treats a descriptor that gets another handler.
--   Redis: src/redis. Redis/Request has `buildRequest`, and the reading of requests by a server;
--     Redis/Conn is redisconnection.cpp, Redis/Trans redistrans.cpp, Redis/Pool redisclient.cpp. The
--     reader of replies is a parameter.
--   TcpServer: src/tcpserver.h and .cpp, on the connections of Connection and a TimingWheel of an hour;
--     TcpServer/Idle treats the check of idle ones. What is asked of acceptors, loop, signaler and
--     process is a log.
--   SpinLock: src/spinlock.h, over all schedules of threads.
--   StringUtil: src/stringutil.cpp, `split`, `hash`, `lower`, `upper`, `strip`, `hex`, and what is put
--     around polarssl's base64 and digests, which are parameters.
--   HttpUtil: src/http/httputil.cpp, `escape`, `unescape`, `normalizeHeader`, `codeReason` and `methodStr`.
--   The modules named Examples hold runs.
--
-- Bounds and fuel. The loop of `onRead` has six turns: a frame has at most five parts that take
-- bytes, and a whole frame ends the loop. The loop of `onTimer` has the size of its bucket. `split`
-- has one round more than its text has bytes, and the loop of `parseFormData` too: a turn takes six
-- bytes. The loop of `popConn` has one round more than connectors are kept. The loop of `connect` has
-- six rounds: its counter ends it. The loop over the replies of redis has its fuel as an argument: it
-- ends when the reader of replies has no more. Indices of buckets keep their reduction to 32 bits; the
-- numbers of buckets and intervals are small enough not to overflow an `int`.
--
-- Not modelled: what the calls of the system do, the code for Windows, and the copies of http_parser,
-- polarssl and hiredis.
pub mod Base
pub mod Acceptor
pub mod Address
pub mod Connection
pub mod Connector
pub mod HttpClient
pub mod HttpConnection
pub mod HttpConnector
pub mod HttpParser
pub mod HttpRequest
pub mod HttpResponse
pub mod HttpServer
pub mod HttpUtil
pub mod IoLoop
pub mod Log
pub mod Notifier
pub mod Poller
pub mod Process
pub mod Redis
pub mod Signaler
pub mod SockUtil
pub mod SpinLock
pub mod StringUtil
pub mod TcpServer
pub mod Timer
pub mod TimingWheel
pub mod WsClient
pub mod WsConnection
pub mod WsUtil
