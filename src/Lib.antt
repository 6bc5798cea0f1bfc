-- ===== src/Lib.antt =====
-- A model of TrueMQTT-cpp, an MQTT client library in C++, with theorems about it.
--
-- The parts of the program, and the files that model them. A function of the program keeps its name,
-- in snake case; a member m_x of a class is the field x.
-- - Packet: src/Packet.h. The buffer of a packet and the primitives that write to it and read from it.
--   Packet/Reads compares the reads with a reading of a plain list of bytes, Packet/RoundTrip the
--   reads with the writes.
-- - Frame: the part of Connection::send (src/Packet.cpp) that puts the fixed header in front of a
--   body. Frame/Length is the encoding of a length in groups of seven bits, Frame/Layout what goes out.
-- - Subscription: SubscriptionPart of src/ClientImpl.h and the loops of subscribe, unsubscribe and
--   findSubscriptionMatch in src/Client.cpp: insert, remove and find_match, on the parts of a topic.
--   Subscription/Parts is about the parts, Lookup about insert, Removal about remove, Matching and
--   Delivery about find_match, and Counting about how often it finds a filter.
-- - Connection: the members of Connection in src/Connection.h.
-- - Client: the members of Impl in src/ClientImpl.h, the enumerations of include/TrueMQTT.h, and the
--   monad of the client's functions: a state, and a fault for what C++ leaves undefined. Client/Topics
--   is std::set<std::string>, and Client/Topics/Sorted what keeps its entries apart.
-- - Sender: Connection::send and the functions that build a packet, in src/Packet.cpp.
-- - Handlers: the functions of src/Client.cpp. Each is one step, under m_state_mutex but for the setters
--   of the last will and of the queues, which take no lock.
--   Handlers/Validity is the invariant, Handlers/Lifecycle that every sequence of calls keeps it,
--   Handlers/Queue the publish queue, Handlers/Resubscribe what a new connection is given to send,
--   Handlers/Subscribed the branches of subscribe, unsubscribe and disconnect, and Handlers/Delivery
--   the way from subscribe to the call of the callback. Handlers/Opening is the part of the invariant
--   for a connection that was just made. Handlers/Synced is about the two places that know the topics,
--   Handlers/Returning, Handlers/Careful and Handlers/Serving about the calls that do not fault, and
--   Handlers/Announcing about the packet that subscribe and unsubscribe send. Handlers/Board is what
--   a user may take the subscriptions for, a list of filters with their callbacks, and
--   Handlers/Showing and Handlers/Refinement what the client has to do with it.
-- - Receiver: recv and recvLoop of src/Packet.cpp, on the read thread. Receiver/Socket is about reading
--   from a socket that cuts the bytes up, Receiver/Decode about one packet, and Receiver/Deliver about
--   a PUBLISH from the one client's buffer to the other client's callbacks. Receiver/Handshake is about
--   the CONNACK, Receiver/Idle about the keep-alive, Receiver/Malformed about a header that is no
--   header, Receiver/Refusal about the packets that close the connection, and Receiver/Answers about
--   the answers to what the client has sent.
-- - Network: resolve, connectToAny, the backoff and runRead of src/Connection.cpp. Network/Descriptors is
--   about where the sockets go that the connection opens.
-- - Writer: popSendQueueBlocking and runWrite of src/Connection.cpp and sendPacket of src/Packet.cpp, on
--   the write thread. Writer/Partial is about one packet on a socket that takes any number of bytes at
--   a time, Writer/Drain about a queue of packets.
-- - Protocol: no code of its own, but the packets of a client as a broker decodes them from bytes.
--   Protocol/Strings is about lengths and strings, Protocol/Connecting about the CONNECT, and
--   Protocol/Requests about all packets.
-- - Session: the rounds of runRead of src/Connection.cpp with recvLoop and connectionStateChange in them:
--   Network, Receiver and Handlers put together. Session/Sending and Session/Opening are about the
--   functions of the client, Session/Reading and Session/Receiving about recvLoop, and
--   Session/Agreement about the states of a client and of its connection.
-- - EndToEnd: no code of its own, but Handlers, Writer and Receiver put together: two clients with a
--   socket between them. EndToEnd/Sending is about the first, EndToEnd/Hearing about the second.
-- - Threads: the locks, waits, joins and notifications of src/Client.cpp and src/Connection.cpp, as steps
--   of a user thread, the read thread and the write thread. Threads/Mutex is about m_state_mutex,
--   Threads/Waking about the notification of the write thread, Threads/Waiting about what a thread waits
--   for, and Threads/Deadlock about the waits without end.
-- - Log: src/Log.h and setLogger. Log/Levels says which messages get to the user.
-- - Pubsub: example/pubsub/main.cpp, on the functions of Handlers. Pubsub/Ending has runs of it.
-- - Stress: example/stress/main.cpp, its loop and its callback. Stress/Ready is about its client, and
--   Stress/Counts about its counters.
-- - Regression: regression/main.cpp. Regression/Cases has its test cases, Regression/Passing runs of
--   them.
-- - Base: the names that all files share, with the lists over native numbers. Base/Bags has lists
--   without their order.
-- The Examples module of each part has tests on concrete values.
--
-- How they interact: Handlers changes the client and queues packets through Sender, which frames them
-- with Frame; Receiver reads framed packets and calls connection_state_change and message_received of
-- Handlers; Network makes the connection on which Sender and Receiver work, and reports its loss.
--
-- What comes from outside the program is an argument: the bytes on the socket and the answers of
-- select, ::recv, ::send, getaddrinfo and the clock, and whether another thread asks for a stop. A
-- callback of the user is a number, and the calls of callbacks are a log; what a callback does is
-- modelled in Pubsub, Stress and Regression alone. Times are milliseconds.
--
-- Bounds. The loop that writes a length runs ten rounds, since a size_t has 64 bits and a round takes
-- seven; the one that reads it runs four, as in the code. The loop that reads a body of n bytes runs at
-- most n rounds, since each reads a byte. The loop over the parts of a topic runs at most as often as
-- the topic has bytes, and once more, since each round but the last takes a '/' away; that this is
-- enough is part of parts-IsSplitOf. A 16-bit value keeps its wrap-around. Offsets and sizes of buffers
-- are not bounded but where the code narrows them.
--
-- Not modelled: what a callback of the user does when it calls the client back (m_state_mutex is not
-- recursive). The functions of Handlers, Receiver, Writer and Network each run as a whole, with the
-- requests to stop of other threads as arguments; Threads interleaves their locks and waits, and not
-- what they do to the data. Session lets a request to stop and a write error come at any time. In Threads
-- there is one user thread, a wait has no spurious wake-ups, a write error is left out, and so is the
-- restart that connectionStateChange makes on the read thread, which ends the program. What the broker
-- sends in Pubsub and Regression is a script that does not depend on what the clients have sent. During the destruction of a connection m_connection is null, which the model
-- of the read thread does not show. The setters of callbacks, host and port, and addrinfoToString do not
-- change what the rest does. Of the example stress the latency and the printed text are left out.
pub mod Base
pub mod Packet
pub mod Frame
pub mod Subscription
pub mod Connection
pub mod Client
pub mod Sender
pub mod Handlers
pub mod Receiver
pub mod Network
pub mod Writer
pub mod Threads
pub mod Log
pub mod Protocol
pub mod Session
pub mod EndToEnd
pub mod Pubsub
pub mod Stress
pub mod Regression
