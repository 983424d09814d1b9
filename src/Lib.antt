-- ===== src/Lib.antt =====
-- IT-SDN, a software-defined network for sensor nodes: verification of its controller, of the
-- packet queues that controller and nodes share, of the flow tables and the packet treatment of a
-- node, and of the framing of the serial link.
--
-- Nodes report their neighbours and their energy to the controller. The controller keeps the
-- network as a directed graph (controller-server/digraph/digraph.c), searches routes in it
-- (controller-server/digraph/dijkstra.c), and remembers the routes that it handed to the nodes
-- (controller-server/sdn-flow-table-cache.c). Every packet goes through the send queue or the
-- receive queue (sdn-common/sdn-queue.c). A node looks a packet up in its two flow tables
-- (sdn-common/data-flow-table.c, sdn-common/control-flow-table.c) and forwards it, receives it or
-- drops it (sdn-common/sdn-process-packets.c); the setups of flows that it receives change these
-- tables, and a setup may carry the path that it takes. A packet without a route is kept, and goes
-- into the send queue when the route comes (sdn-common/sdn-unknown-route.c). The packets that a node
-- makes itself are written by sdn-common/sdn-send-packet.c. A node and its computer exchange packets
-- in frames (contiki-sdn/sdn-serial.c).
--
-- Where the code is:
--   Base        numbers, tests and lists that the other modules share.
--   Queue       sdn-queue.c. `Queues` has the file's variables; a function keeps its name, a pointer
--               to a slot is an index. `Queue/Fifo` and `Queue/System` have the specification.
--   EdgeRing    the part of digraph.c that works on the edges of one vertex, as a list from
--               `edge_header` on. `leads_to`, `add_edge`, `del_marked` and so on are the bodies of
--               the functions `digraph_...` that `Digraph` defines over them.
--   Digraph     digraph.c. The ring of vertices is the list from `digraph_header` on, and a pointer
--               to a vertex is a number.
--   Dijkstra    dijkstra.c. One definition, `path_algorithm`, has the code of both algorithms, which
--               differ in `extend` alone: the sum of the weights, or the larger one.
--               `Dijkstra/Check` has the checks of a current route.
--   Chain       a linked list with a head and a tail pointer, as the tables of the cache are.
--   FlowCache   sdn-flow-table-cache.c. The tables by flow id and by target address have the same
--               code; `table_...` are the functions of the first, `sdn_flow_address_table_...` those
--               of the second.
--   Controller  the neighbour and energy reports of
--               controller-server/sdn-process-packets-controller.c, which work on the graph.
--               The current routes that this file reads from the cache, and the loop that stores a
--               route in it, are `FlowCache/Current` and `FlowCache/Install`.
--   Contiki     what the node's code uses of Contiki's memory pools and lists, as a record of
--               operations and of what their documentation says. It is a parameter of the tables.
--   FlowTable   data-flow-table.c and control-flow-table.c. The functions of both tables keep their
--               names; `store_entry`, `remove_entry` and `clear_from` have the code that they share.
--               Each table has a pool of its own, as contiki-sdn/flow-tables-mem.h, which both files
--               include, declares a static one.
--               `FlowTable/Calls` has sequences of calls.
--   Packet      the packet types and layouts of sdn-common/sdn-protocol.h, and the check of the
--               length of a packet.
--   Treat       sdn-process-packets.c: the handlers, and in `Treat/Decide` `sdn_treat_packet` and
--               `sdn_treat_packet_receiv`, each with its own copy of the code, in the two parts
--               `..._route` and `..._switch`. `Treat/Shared` has what the copies come to, for the
--               proofs. `Treat/Perform` carries the handlers' calls out.
--   Keep        sdn-common/sdn-unknown-route.c and sdn-common/sdn-packetbuf.c: the packets that are
--               kept until their route comes.
--   Send        sdn-common/sdn-send-packet.c, with the macros of sdn-common/sdn-common-send.h. A
--               function `make_...` has the contents of a packet, over what its buffer held.
--               `Send/Unknown` has the functions that keep a packet and ask for its route.
--   Receive     contiki-sdn/sdn-receive.c on an enabled node: the duplicates and the numbers that
--               tell them, and `sdn_receive`, which a packet goes through on its way to the queue.
--   Window      the retransmission window of contiki-sdn/sdn-send.c: the functions `sld_...`. A slot of
--               `Window` has the elements of the arrays at one index.
--   Management  the management data that sdn-send-packet.c sends and `process_mngt_data` reads.
--   Serial      the frames of contiki-sdn/sdn-serial.c, which link a node to its computer. The sizes
--               of a packet and of its header are parameters.
--   Tests       the theorems at concrete inputs, and runs of the code.
--
-- How the code is read. An address, a vertex id and a flow id are the numbers that their bytes
-- spell, since the code only compares and copies them. The indices of the queues are bytes and wrap
-- at 256. Weights and costs are natural numbers: the metrics of the program return values from 1 to
-- 100, and a route has fewer than 256 edges, so that no `int` overflows. The list of a ring stands
-- for the links in both directions, which the functions of digraph.c always set together. `malloc`
-- never fails, as the code assumes, and never hands out an address again; a write through a pointer
-- to a freed node of a table has no result (`none`). In digraph.c one function reads the link of an
-- edge that it has just freed; the model reads the link that the edge had.
--
-- A packet at a node is the memory from its pointer on, a function from offsets to bytes, with its
-- length, so that a read behind the packet gives what happens to be there. A field of two bytes is
-- the number that they spell. The handlers of a packet give the list of the calls that they make of
-- other modules; these calls change nothing that a handler still reads, since they post events and
-- never treat another packet at once. Of a call `enqueue` (the macro ALLOC_AND_ENQUEUE) the list has
-- the bytes that are copied; it may fail for want of memory. The build is that of an enabled node
-- with SDN_TX_RELIABILITY, MANAGEMENT, CP_DETECT and DIST_DETECT, where addresses have two bytes.
--
-- Fuel. The loop that frees the graph has as many rounds as there are vertices. The route search
-- has at most one round for each vertex, and so has the loop along the roots. The loop that reads a
-- current route has at most as many rounds as its first entry has hops, and one. The metric
-- (`SDN_METRIC`, float computations) is a parameter of the graph. In a search the subtraction of a
-- weight from the weight of the whole route is the truncated one.
--
-- Not modelled: the functions that only print, and the parts of the program that are not named
-- above: the discovery of neighbours and of the controller, the security modules, and what drives
-- Contiki's network stack and timers or the user interface.
pub mod Base
pub mod Queue
pub mod Receive
pub mod EdgeRing
pub mod Digraph
pub mod Dijkstra
pub mod Chain
pub mod Contiki
pub mod Controller
pub mod FlowCache
pub mod FlowTable
pub mod Keep
pub mod Send
pub mod Management
pub mod Packet
pub mod Treat
pub mod Serial
pub mod Window
mod Tests
