-- ===== src/Lib.antt =====
-- zippylog keeps envelopes, lists of typed messages, in streams on a server and answers requests for
-- them. This library models the parts of the server that decide what is stored, read and answered.
--
-- A store (src/zippylog/store.cpp) has buckets, stream sets in them and streams in those, each named by
-- a path. Store/Path has ValidatePath, ParsePath and the functions that build paths, over lists of
-- bytes; Store/Backend is the interface of the virtual functions that read a store, Store/Contents what
-- Store tells on top of them, and Store/Simple the implementation by directories, over the functions of
-- src/zippylog/platform.cpp in Platform/Directories. Store/StreamName has
-- StreamNameForTime, Store/Output the table of open output streams with the writing of envelopes, and
-- Store/Uri CreateStore.
--
-- Envelope is src/zippylog/envelope.cpp, an envelope with its cache of parsed messages. Stream is
-- src/zippylog/stream.cpp, the reading of envelopes from the bytes of a file; Stream/Output writes them, and
-- Stream/Sessions has what a session of writing leaves. RequestProcessor is
-- src/zippylog/request_processor.cpp: its Messages are the protocol's, State holds what a handler works
-- with (output, log messages, calls of the implementation), Info, Segment, Subscriptions and Writes the
-- handlers, Record SubscriptionInfo as a protocol buffer, and Dispatch ProcessRequest, ProcessMessages
-- and the frames that a response makes, which Pump sends. A handler uses the store through Store/Backend, parses paths by
-- Store/Path, reads segments through Stream, and hands writes and subscriptions to an implementation,
-- which is a parameter that answers by the calls so far.
--
-- ZeroMq is src/zippylog/zeromq.cpp, the frames of messages over sockets, which are a parameter with two
-- calls; ZeroMq/Queue is a concrete one. StoreWriter has src/zippylog/device/store_writer.cpp and
-- store_writer_sender.cpp, which write envelopes for others through Store/Output.
--
-- Platform is the timer of src/zippylog/platform.cpp, as it is built over POSIX timers: the clock and the
-- success of the system's calls come as a Moment. Platform/Directories is how it reads directories, over what
-- `readdir` and `stat` answer. Manager is src/zippylog/persisted_state_manager.cpp:
-- Manager.antt tells which subscriptions a path concerns, Registration has the subscriptions as they are
-- registered, renewed and removed, and Changes the whole state with what is done when the store changes.
-- Device is src/zippylog/device/device.cpp, the loop that devices run in, over the functions that a kind of
-- device defines and the semaphore that ends it, and runs on fuel, of which more than the rounds is enough
-- (Device/Running). Server is src/zippylog/device/server.cpp: Server/Children the devices that it watches and
-- stops, Server.antt its sockets and the order in which messages are passed on. Reactor is src/zippylog/device/persisted_state_reactor.cpp, which has the manager and
-- feeds it from two sockets, with the responses to subscriptions of src/zippylog/request_processor.cpp in
-- Reactor/Responses, and Worker the handlers of src/zippylog/device/server_worker.cpp, which send subscriptions; the
-- server between them passes messages on by TransferMessage (Server/Routing). Client is src/zippylog/client.cpp: Requests
-- what it sends, Waiting how it waits, Renewing how it keeps subscriptions, Client.antt and
-- Dispatch what it makes of a response, Fetching how
-- it gets whole streams by requests that wait for the answer, and Synchronous these requests. Callbacks are
-- numbers, the calls of them are kept in order, and a function of the client's tells what a call makes of
-- the outstanding requests: callbacks return, may send requests, and do not wait for answers.
--
-- Prelude has the shared names. A C++ call ends with a value, an exception or a failed assertion
-- (Prelude/Outcomes). Numbers are natural numbers; uint32 variables are taken modulo 2^32 where the code
-- counts with them. The loop of ProcessGetStream runs on fuel, as many rounds as there are envelopes left
-- to send, which RequestProcessor/Segment/Fuel compares with more fuel. The loops over the frames of a message run on
-- fuel too: as many rounds as there are frames are enough, which ZeroMq/Delivery and ZeroMq/Transfer
-- prove. The loop over the envelopes of a stream that has grown is never entered
-- (Manager/Changes/Silence), and GetStream has as many rounds as there are offsets to go
-- (Client/Fetched). The loop of ParsePath has three rounds, one for each part of
-- a path.
--
-- Protocol buffers (parsing, serialising, varints), the clock, the file system, Lua and 0MQ are
-- parameters. Not modelled: errors of 0MQ other than EAGAIN,
-- which its calls throw as zmq::error_t (a closed socket, a context that has ended), so that the log
-- messages of a request processor are taken to be sent; the sockets and threads themselves, Lua, the string loader, the
-- server's setup, and generated code.
pub mod Prelude
pub mod Store
pub mod Envelope
pub mod Stream
pub mod RequestProcessor
pub mod ZeroMq
pub mod StoreWriter
pub mod Platform
pub mod Device
pub mod Server
pub mod Manager
pub mod Reactor
pub mod Worker
pub mod Client
