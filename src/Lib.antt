-- ===== src/Lib.antt =====
-- A verification library for SleepManager.
--
-- The program has two modes. A participant broadcasts a DISCOVERY request and waits for Wake-on-LAN
-- packets; the manager keeps a table of the participants, answers the discovery requests, polls the
-- participants for their sleep status, and removes those that exit. Both talk by datagrams that hold
-- packets written as text. In the manager the discovery thread, the monitoring thread and the user
-- interface share the table; the table calls event handlers, and the interface's handler sends
-- messages through a channel.
--
--   Base, Text          lists, maps, byte strings, and what the program uses of the standard library:
--                       std::map, std::sort, std::to_string, std::stoull, and the formatted input of
--                       istringstream
--   Exception           the exception classes of include/address.h, include/packet.h and
--                       include/io_exception.h, and results that may be one of them
--   Channel             include/channel.h: the state as a record `Mpsc`, one function per method; the
--                       condition variable in Channel/Wakeup, as a step relation, and the queue that the channel
--                       is to its callers in Channel/Pipe
--   Address             src/address.cpp: printing and parsing of MAC and IP addresses, and the
--                       addresses of the host in Address/Host
--   Packet              src/packet.cpp and include/packet.h, with Packet/Serializer and
--                       Packet/Deserializer for the two classes of these names
--   WorkStation         the class WorkStation of include/management.h
--   Management          src/management.cpp: the table with its three indices, one function per method; the
--                       list of stations that it is to its clients in Management/Registry, the steps of
--                       threads in Management/Threads, and the calls with their locks in Management/Locks
--   Lock                include/lock.h
--   Socket              src/socket.cpp: Socket for UdpSenderSocket, Socket/Udp for UdpReceiverSocket,
--                       Socket/Server for ServerSocket, Socket/Client and Socket/Magic for ClientSocket
--   Discovery           src/discovery.cpp: the handler of a request, the loop with the requests whose
--                       threads it starts, and these threads in any order
--   Monitoring          src/monitoring.cpp: a round and its three parts
--   Participant         src/participant.cpp: the exchanges with the manager, the message loop, and the
--                       loop for Wake-on-LAN packets
--   Interface           src/interface.cpp: the commands, Interface/Render for the table on screen, and
--                       Interface/Session for the event handler and the channel that the manager's threads
--                       share
--   Main                src/main.cpp: the choice of the mode; src/manager.cpp: the manager's farewell
--   System              participants and the manager together, over a network that delivers; and the
--                       manager as a whole, src/manager.cpp, as a step relation in System/Threads, with
--                       each access of its threads to what they share as a step
--   Samples             concrete values for the tests
--
-- A class is a record, and a method is a function of the same name from the record, and what else it
-- reads, to the record afterwards and its answer. A call that can throw answers with `Result`, a call
-- that can also wait for ever with `Outcome`. A `shared_ptr` to a work station is a natural number,
-- the place of the object in the heap `cell` of the table's record, so that two indices that hold the
-- same pointer see the same status. A string or an array of bytes is a list of numbers. Variables
-- that the code leaves uninitialised, or that an input leaves alone, are parameters, `Junk` and
-- `junk_status`.
--
-- Machine integers: uint64_t, uint16_t and uint8_t keep their wrap-around as a remainder. Numbers are
-- printed with fuel for twenty digits, which is the length of the greatest uint64_t, and the loops
-- that print and read addresses count down the bytes that are left. The loops that receive recurse on
-- the datagrams that are there or on the retry bound, so they need no fuel, but for the loop of
-- `discovery_main`: each of its receives takes one datagram at least, so its fuel is one more than the
-- datagrams that arrived. Where no more datagram comes, a blocking call answers `blocks`.
--
-- System calls are parameters: `Env` has the answers of the clock, of the lookup of the host's
-- addresses and of the calls that send, and `Faults` the error numbers of the calls that receive. Of
-- itself `sendto` refuses the address 255.255.255.255 to a socket on which broadcast is not enabled.
-- The inbox of a socket is the list of the datagrams that arrived.
--
-- Not modelled: the destructors of sockets, which only close; the passing of time, with the waits
-- between attempts and rounds; the start of threads and the registration of signal handlers;
-- the source address of a datagram, which no caller reads. The locks are states in
-- Management/Locks only: elsewhere a method is one step, as the locks are meant to make it, and
-- Channel/Wakeup and Management/Threads split the methods that wait, notify, or hold no lock
-- throughout, while System/Threads lets even the handlers of a call that holds one come late.
-- Where a loop depends on what another thread does, and System does not join the two, the calls, the
-- answers or the datagrams that it meets are a list.
mod Base
pub mod Text
pub mod Exception
pub mod Channel
pub mod Address
pub mod WorkStation
pub mod Packet
pub mod Management
pub mod Lock
pub mod Socket
pub mod Discovery
pub mod Monitoring
pub mod Interface
pub mod Participant
pub mod Main
pub mod System
mod Samples
