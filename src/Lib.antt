-- ===== src/Lib.antt =====
-- A verification library for the virtual network of this repository: hosts are processes that send
-- each other UDP messages along configured links, with a link, a network, a transport and an
-- application layer.
--
-- Parts, from below, with the files that model them:
--
-- Checksum.antt: checksum/checksum.c, the sum that all three layers append to what they send.
-- Garbler.antt: garbler/garbler.c, which loses, damages and doubles messages at random. The two
-- random numbers and the system's `sendto` are arguments.
-- Topology.antt: project.c, the hosts and the MTU of each pair of hosts.
-- Config.antt: config/config.c, the parser of the file that names them. It works on the lines that
-- `getline` gives; the system's `inet_pton`, and the bytes that a process has on its stack behind
-- the characters of a number, which are no part of the file, are arguments.
-- Link/Codec.antt and Link/Send.antt: link_layer/link.c. A frame is laid out in memory by
-- `buildsendframe`, goes through the garbler, and is tested and read by `receive`. `LinkState`
-- holds the one frame that waits for the sender thread; each turn of a thread is a function.
-- Net/Datagram.antt, Net/Frag.antt, Net/Packs.antt, Net/Send.antt, Net/Sending.antt,
-- Net/Recv/Accept.antt, Net/Recv/Turn.antt, Net/Routes.antt and Net/WaitList.antt:
-- net_layer/net_layer.c, net_layer/frag/frag.c and net_layer/list/net_list.c. Packets wait in a
-- ring (`net_send`, `net_resend`), are cut to the MTU of the link by a turn of `internalsend`, and
-- are put together again at the destination, or forwarded, by the turns of `internalrecv`; the
-- route table says over which neighbour a packet goes. `NetState` is what the threads share.
-- Transport/Segment.antt, Transport/Segs.antt, Transport/Acks.antt, Transport/Point.antt,
-- Transport/Connect.antt, Transport/Sender.antt, Transport/Receive.antt and Transport/Wire.antt:
-- transport_layer/transport_layer.c, transport_layer/segment/seg_lst.c and
-- transport_layer/ack/ack_lst.c. A service point opens and closes connections, cuts a stream of
-- bytes into numbered segments, repeats them until they are acknowledged (`seg_send_thread`), and
-- reads such a stream from another point. `internalrecv` gives what the network layer hands up to
-- the service points.
-- Application/Messages.antt and Application/Files.antt: application_layer/application_layer.c.
-- `send_ips` and `recv_ips` frame messages in the stream between two service points, and `upload`
-- and `download` send a file in such messages. An `Inbox` lists, call by call, the segments that
-- become ready, an `Outbox` the states in which the calls of `send_point` find the service point.
-- The files that can be opened are an argument.
-- Application/Menu.antt: the console menu, `application_layer_init`, each option a function on the
-- state of the whole host; Application/Menu/Steps.antt adds the turns of the threads of all layers.
-- Net/Carry.antt: the calls of `link_send` that a turn of the network layer makes, with the turns of
-- the link layer, and what the other host's link layer makes of the messages on the wire.
-- Startup.antt: `main` of project.c with `link_init`, `net_init` and `transport_init`, which read the
-- topology file and set up the layers of a host. What the two System V semaphores of the ring hold
-- from an earlier process is an argument.
--
-- Base holds what these share. The files named Laws and those below a component prove theorems,
-- and Transport/Kept.antt what every call and thread keeps of a service point; Tests holds examples.
--
-- State is passed explicitly: a function takes the state and returns the new one. A read or write
-- out of bounds, or through a null pointer, is `none`, `fault`, `crash` or `broken`, and so is a
-- read of memory that has been freed; a call that waits at a mutex or semaphore is `blocked` or
-- `none`, as its comment says, and one that never ends `hangs`. Words wrap around
-- where the source's do: `size_t` has 64 bits, `int` and `uint32_t` 32, in the little-endian
-- layout of the platform. Memory that the source leaves unset is an argument.
--
-- Fuel: the cutting loops of Net/Frag.antt take a bound on their rounds, and one more than the
-- packet's bytes is enough unless the MTU leaves no room; the loop in Transport/Segs.antt takes one
-- more than the entries held back, each round taking one out; the folding loop of the checksum
-- takes three rounds. The loop over the sections of a topology file takes one more round than
-- there are lines, and the loops of a file transfer one more than there are parts of 1020 bytes.
--
-- Not modelled: the sockets, threads, mutexes and semaphores of the system, of which the functions
-- take the effect; logging/logger.c, the log lines and what the menu prints; and the test programs,
-- menus that call single layers by hand. The fields of the shared `wait_item` are set and copied in
-- one step, although the source takes no lock for them.
pub mod Base
pub mod Checksum
pub mod Garbler
pub mod Topology
pub mod Config
pub mod Link
pub mod Net
pub mod Transport
pub mod Application
pub mod Startup
mod Tests
