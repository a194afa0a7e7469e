-- ===== src/Lib.antt =====
-- A model of the programs of a course on computer networks, and proofs that their parts do what they
-- are for: the TCP library `sponge` in Lab4-2023Spring-karenntayy-master/sponge/libsponge, the learning
-- switch in Lab5-2023Spring-karenntayy-main/01-switching, and the router and the address translator in
-- 02-router and 03-nat of Lab6-2023Spring-karenntayy-master.
--
-- An application writes into the ByteStream of a TCPSender, which cuts it into segments, keeps them until
-- they are acknowledged, and sends the oldest again when its timer runs out. A TCPReceiver turns the
-- sequence numbers of incoming segments into stream indices and hands the payloads to a
-- StreamReassembler, which writes them in order into the ByteStream that the application reads. A
-- TCPConnection owns one of each, chooses what to do with a segment from their counters, and adds the
-- receiver's acknowledgment and window to what the sender queues. TCPSegment and TCPHeader are the form on
-- the wire, over NetParser and InternetChecksum; a TCPOverIPv4Adapter puts them into IPv4 datagrams and
-- takes from datagrams those of its connection.
--
-- A TCPSpongeSocket gives a TCPConnection to an application: by the rules of its event loop it hands over
-- arriving segments, the bytes of the application, assembled bytes and outgoing segments. Below it an
-- adapter sends segments as UDP or IPv4 datagrams, and one around it drops some of them at random.
--
-- The switch, the router and the translator are programs of their own. The switch learns the interface of
-- each source address, sends a frame there, or to all interfaces, and forgets old entries. The router looks
-- up the route of a packet, resolves the address of the gateway by its ARP cache, in which packets wait for
-- replies, and answers by ICMP what it cannot forward; a thread sweeps the cache. The translator rewrites
-- the addresses and ports of TCP packets by a table of mappings, which a thread sweeps as well.
--
-- Files, and the sources that they model (below libsponge):
--   Base, Base/*: tests, lists and machine words that all parts share.
--   WrappingInts: wrapping_integers.hh/.cc (wrap, unwrap, offset for the difference of two numbers).
--   ByteStream: byte_stream.hh/.cc. Invariant has the well-formedness, Queue the specification as a
--     bounded queue, Refine the refinement, Window the lemmas on the cells.
--   Reassembler: stream_reassembler.hh/.cc. Slice has excerpts of a stream, MergeSound the cache,
--     Soundness the invariant, Delivery whole histories, Progress and CacheLimit what is written and kept.
--   NetParser: util/parser.hh/.cc. Checksum: InternetChecksum of util/util.hh/.cc.
--   TcpHeader, TcpSegment: tcp_helpers/tcp_header.*, tcp_segment.*. TcpConfig: tcp_helpers/tcp_config.hh.
--   Ipv4Header, Ipv4Datagram, TcpOverIp: tcp_helpers/ipv4_header.*, ipv4_datagram.*, tcp_over_ip.*.
--   TcpReceiver: tcp_receiver.hh/.cc. TcpSender: tcp_sender.hh/.cc (Fill and Window for fill_window, Acks
--     for ack_received, Timer for tick). TcpConnection: tcp_connection.hh/.cc (Output for what is sent,
--     Lifecycle for opening and ending). TcpState: tcp_helpers/tcp_state.hh/.cc (Official for the states of
--     the specification of TCP and the branches of segment_received).
--   SpongeSocket: tcp_helpers/tcp_sponge_socket.hh/.cc. Network has two sockets and what can happen to them,
--     Grows what is taken from an application, Outgoing and Incoming what a socket sends and shows, Delivery
--     both directions. For it: TcpSegment/Excerpt, TcpSender/Feeds, Honest and Keeps, TcpReceiver/Heard,
--     Reassembler/EndMark, and TcpConnection/Honest, Feeding and Heard.
--   Buffer: util/buffer.hh/.cc (Views against plain strings). EventLoop: util/eventloop.hh/.cc (Round for the
--     order of the rules, Wait for the outcomes).
--   FdAdapter: tcp_helpers/fd_adapter.*, lossy_fd_adapter.hh, tuntap_adapter.hh (Reads and Rounds for what one
--     adapter writes and another reads, Arrives for the sockets above them).
-- Device has what the link-layer programs share. Switch: mac.c, main.c, broadcast.c of 01-switching (Table
-- for the chains, History and Learning for the map that learns, with the sweeping thread in between). Below 02-router:
--   Router/Packet, Router/Checksum: include/*.h. Router/Run: what a call ends in. Router/State: the global
--     state. Router/Rtable: rtable.c and the lookup of ip_base.c (Match for the longest match).
--   Router/ArpCache: arpcache.c and arp_send_request of arp.c (Insert and Pending for the waiting
--     packets, Blind for the lookup). Router/Ip: ip_base.c and iface_send_packet_by_arp of arp.c. Router/Icmp: icmp.c.
--   Router/Handle: ip.c, the rest of arp.c and handle_packet of main.c (Forward, Icmps, Lock).
--   Router/Sweep: arpcache_sweep (Locked with a request that is given up).
-- Below 03-nat:
--   Nat/Sum, Nat/Packet: include/checksum.h, hash.h and tcp.h. Nat/Table: include/nat.h, nat_init and
--     nat_exit. Nat/Translate: do_translation (Verify for the checksums). Nat/Sweep: nat_timeout.
--   Nat/Entries, Ports, Timeout, Expiry, Flow, Misses, Flaws, Fins: the lists of mappings, the ownership of
--     ports, its preservation by the timeout, what the timeout removes, replies, failing searches, what goes
--     wrong, and finished flows. Nat/Handle: the rest of nat.c, and ip.c.
-- Witnesses: the theorems at concrete inputs.
--
-- State and operations. Each class is a record with its member variables; a method is a function from the
-- old state to the new one, with the method's result. `std::map` is an association list in the order of
-- its keys, `std::queue` a list with the front first, `std::string`, Buffer and BufferList a list of
-- bytes. An exception is `none`. The array of a ByteStream is a function from indices to bytes, as the
-- constructor reserves it; what it holds before the first write is a parameter, and so is the number that
-- `random_device` returns.
--
-- The descriptors of a TCPSpongeSocket are the traces of what has passed through them: the bytes read from
-- the application, the bytes written to it, the segments handed to the adapter. What a read returns, how
-- much a write takes and which segment arrives are parts of an event. An exception of the thread is a flag,
-- after which nothing happens to the socket.
--
-- The callbacks of an EventLoop change any state, in which the descriptors have theirs; what poll answers
-- is a parameter. What an adapter receives and what the random generator returns are arguments.
--
-- The C programs are functions on their global state. A null pointer that is followed, an access
-- outside of a packet and a mutex that its holder waits for are results of their own; the mutex of
-- the cache is part of the state, and what is done under one of the other locks is one step. A
-- frame that is sent is appended to the state, or returned with its interface. What malloc leaves
-- in a block, the time and `rand` are parameters. Pointers to interfaces are compared by the
-- unique index; allocations do not fail. Where the router frees a packet that it has given away,
-- to be sent or to wait in the cache, its state counts it and the run goes on: the C program has
-- no defined behaviour from there. A header field that is converted by ntohs or ntohl is kept
-- converted. The lengths of a packet are those of its parts, and `ihl` is at least 5. A packet of
-- the translator has a TCP header just when its protocol is TCP and it is long enough. Arrays of
-- the translator are functions of the index.
--
-- Integers are natural numbers with the wrap-around of their types written out: 16, 32 and 64 bits, and
-- the patterns of negative numbers where the code converts to a signed type. The `int` counters of
-- ByteStream are exact below 2 ^ 31, which the theorems that depend on it ask for.
--
-- Fuel. `fold_loop` gets two rounds: a sum of 32 bits folds to at most 17, and then to 16. `data_loop` gets
-- one round more than the bytes in the stream, of which each round but the first takes at least one.
--
-- `port_loop` gets as many rounds as the pool has ports, `sweep_lists` one for each list, and the folding loop
-- of the translator two, which are enough for 32 bits.
--
-- Not modelled: files, system calls, printing, the vectors for writev, the earlier labs, and of the later ones the hub,
-- the topologies, the access to the devices and the reading of routes and of the configuration. The
-- functions that the translator calls in files that its directory does not hold are a parameter.
pub mod Base
pub mod WrappingInts
pub mod Witnesses
pub mod Device
pub mod FdAdapter
pub mod EventLoop
pub mod Switch
pub mod Ipv4Header
pub mod Ipv4Datagram
pub mod TcpOverIp
pub mod Nat
pub mod Router
pub mod ByteStream
pub mod SpongeSocket
pub mod Buffer
pub mod NetParser
pub mod Checksum
pub mod TcpHeader
pub mod TcpSegment
pub mod Reassembler
pub mod TcpConfig
pub mod TcpReceiver
pub mod TcpSender
pub mod TcpConnection
pub mod TcpState
