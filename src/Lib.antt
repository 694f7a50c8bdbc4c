-- ===== src/Lib.antt =====
-- raptor-lite: a TCP library. Endpoints (sockets) are attached to a container, which gives each a
-- connection id and a deadline, receives and sends on it from polling threads, cuts what arrives into
-- packets, and hands packets and events to the application's handlers through a message queue.
--
-- Words: machine words as numbers below a power of two, with the wrap-around written out.
-- Cid: src/common/cid.h, the 64-bit connection id.
-- Slice: src/utils/slice.cc, byte strings held inline or in a block, by the bytes that they hold; Bytes
--   says which are well formed, Pops and Build what the operations do to the bytes.
-- SliceBuffer: src/utils/slice_buffer.cc, a queue of slices with its length; Contents and Header relate
--   its operations to the bytes of all its slices.
-- Protocol: ParsingProtocol of src/linux/connection.cc. Split is the framing that it is meant to do, on
--   a plain list of bytes; Refine relates the two, for a check that decides from the first 1024 bytes;
--   Stuck is about other checks. The loop runs on fuel, one unit for each round. With such a check a
--   round that does not stop takes at least one byte, so more fuel than bytes is enough.
-- Endpoint: src/common/endpoint_impl.cc, the state of an endpoint.
-- Connection: src/linux/connection.cc. The results of `::recv` are a list, those of `::send` a function
--   of the call and its bytes; what is asked of the pollers, the socket and the service is a list of
--   effects. The loop of OnSend has one unit of fuel for each byte and one more.
-- WinConnection: src/windows/connection.cc, with posted sends and receives and their completions; Gather
--   is about one send, Stream about the bytes on the wire, Receiving about the loop of reads, which is
--   that of Linux.
-- Container: src/common/container_impl.cc. The vector of slots, the list of free indices, the multimap
--   of deadlines as the list of its entries in order, and the queue of messages. Timeouts has the
--   multimap, Table the invariant; Growing, Attaching and Admission are about AttachEndpoint, Starting
--   about Init, Deleting about DeleteConnection, Refreshing about RefreshTime, Calls has the calls from
--   outside, Serving the effects of a connection on its container, Expiry is about OnTimeoutCheck,
--   Ending about CloseEndpoint, Events about OnSendEvent, Arrivals about OnRecvEvent, and Messages has
--   the message thread and Shutdown, and Dispatching is about the order of the messages; a push and its
--   count are one step there; Stopping is about Shutdown. `none` is undefined behaviour or a call that
--   does not return.
-- Mpscq: src/utils/mpscq.cc, with one step for each atomic operation; Chain has the linked nodes, Moves
--   what each step does to them, Fifo the order, Waiting the number of steps of a pop. A pop on its own
--   has six units of fuel, one for each of its steps, which Waiting shows to be enough.
-- Polling: src/linux/epoll_thread.cc, the events of one poll in the order in which the container sees them;
--   Handling is about one event, Rounds about a round of the loop.
-- HostPort: src/common/host_port.cc and what it uses of src/utils/string_view.h; RoundTrip has the proofs.
-- Address: src/common/socket_util.cc; Mapped is about mapped IPv4 addresses, Ports about ports and
--   wildcards, Texts about the printed form.
-- Sockets: src/linux/socket_setting.cc. The system calls are answered by a parameter that sees all calls
--   before; Opened and Counted say which descriptors are open.
-- Connector: src/linux/tcp_connector.cc, Listener: src/linux/tcp_listener.cc; Owned says who has each
--   descriptor. The calls of `connect` that are interrupted are counted by an argument.
-- WinSockets: src/windows/socket_setting.cc; Opened says which sockets are open.
-- WinConnector: src/windows/tcp_connector.cc, with its records on a heap; Records has the set of records,
--   Attempts is about Connect, Owned says who has each socket, Dangling is about a ConnectEx that fails at once.
-- WinListener: src/windows/tcp_listener.cc, with the rings of its accept objects on the store of ListEntry;
--   Running has AddListeningPort, the completions and Shutdown, Accepting is about the accepts that are
--   posted, FirstPort about the first port and Stopping about Shutdown, whose loop takes one unit of fuel
--   for each object and one more.
-- WinPolling: src/windows/iocp_thread.cc; Routing is about the service that a completion reaches.
-- Property: include/raptor-lite/impl/property.h, and the options that src/surface/container.cc reads;
--   Values has the proofs.
-- Surface: CreateContainer of src/surface/container.cc with the start of a container; Creating has the
--   proofs.
-- ListEntry: src/utils/list_entry.cc, linked entries in a store; Ends is about a push at the front
--   that is taken back, Ring has the links of a whole ring, Refine says that a ring is a list.
-- Timer: src/utils/timer.cc, its table, its ids and the rounds of its thread; Rounds has the proofs.
-- Examples, ContainerExamples, TextExamples, AddressExamples, MpscqExamples, WinExamples, SocketExamples,
--   WinPortExamples: the theorems at concrete inputs.
--
-- Not modelled: the reference counts of slices (a block is never written once it is shared, so a slice is
-- its bytes); the locks, and with them the interleavings of threads outside the queue of messages (each
-- operation is one step; to the container that queue is a list); sockets, pollers, clocks and handlers, whose answers are
-- arguments; the text of errors and logs; the completion port itself.
pub mod Common
pub mod Words
pub mod Cid
pub mod Slice
pub mod SliceBuffer
pub mod Protocol
pub mod Endpoint
pub mod Connection
pub mod Container
pub mod Polling
pub mod HostPort
pub mod Address
pub mod AddressExamples
pub mod Mpscq
pub mod MpscqExamples
pub mod Sockets
pub mod Property
pub mod Surface
pub mod Connector
pub mod Listener
pub mod SocketExamples
pub mod WinConnection
pub mod WinSockets
pub mod WinConnector
pub mod WinListener
pub mod WinPolling
pub mod WinPortExamples
pub mod WinExamples
pub mod ListEntry
pub mod Timer
pub mod Examples
pub mod ContainerExamples
pub mod TextExamples
