-- ===== src/Lib.antt =====
-- A model of the BGP router simulator. Its crate lies in `src/`: `src/components` holds the data and
-- the parts of a router, `src/modules` the router and the network, `src/utils` the shared tools.
--
-- A router runs BGP processes. A process reads advertisements from the interfaces of its sessions,
-- enters them into a routing information base (RIB) that routers share, and sends the changes of its
-- best routes on. Interfaces exchange messages over bounded channels that a message bus hands out.
--
-- - Platform.antt: what is taken from crates and from the standard library: identifiers, networks,
--   floats, the parser and printer of addresses. PrefixTable.antt: the crate `ip_network_table` as
--   an interface with laws.
-- - RouterMask.antt (`src/utils/router_mask.rs`): the mask of routers and the map that hands out its
--   64 bits. A mask is a number below 2 ^ 64. The search for a free bit runs over 64 bits, and there
--   is one as long as the mask is not full.
-- - Route.antt (`src/components/route.rs`), BestRoute.antt (`src/components/bgp/bgp_bestroute.rs`):
--   routes, their order, and the choice of the best.
-- - RibEntry.antt (`src/components/bgp/bgp_rib_entry.rs`), Rib.antt
--   (`src/components/bgp/bgp_rib.rs`): the shared RIB. Code that panics has the type `Outcome`.
-- - Advertisement.antt (`src/components/advertisement.rs`, `src/components/ris_live_data.rs`): the
--   messages, and the routes they carry.
-- - Filters.antt (`src/components/filters.rs`, `src/utils/debug_filter.rs`): a filter is a function
--   to its answer and the element that it leaves.
-- - Channel.antt, MessageBus.antt (`src/utils/message_bus.rs`): channels live in a store, and an end
--   of a channel is an index into it, so both ends share the queue.
-- - Interface.antt (`src/components/interface.rs`): the end of a link, with filters and buffers.
-- - StateMachine.antt (`src/utils/state_machine.rs`): the loop of a machine's thread. Its fuel is the
--   number of rounds, and one more than the round of a stop command is enough. StateMachine/Machine.antt:
--   the machine as its owner has it. A command that finds the channel full waits, and has no result.
-- - Session.antt (`src/components/bgp/bgp_session.rs`, `src/components/bgp/bgp_config.rs`),
--   RibInterface.antt (`src/components/bgp/bgp_rib.rs`), Process.antt
--   (`src/components/bgp/bgp_process.rs`), Router.antt (`src/modules/router.rs`): from a session to the
--   work of a router. RIBs live in a store, as channels do, because processes share them.
-- - Topology.antt (`src/utils/topology.rs`): the graph that a network is built from, with
--   Topology/Routers.antt for the topology of routers.
-- - ThreadManager.antt (`src/utils/thread_manager.rs`): the handles of threads, and the channel pairs
--   of the bus. MutexUtils.antt (`src/utils/mutex_utils.rs`): a lock that is tried until a timeout; its
--   fuel is a round for each millisecond, since each round sleeps.
-- - Network.antt (`src/modules/network.rs`): links and routers, Network/Build.antt: the network of a
--   topology, Network/Machines.antt: the routers as state machines.
-- - LiveBgpParser.antt (`src/modules/live_bgp_parser.rs`): the parser of the live stream, over the
--   chunks that its task left in a channel. The loop over the lines has fuel for each byte of the
--   buffer and a last round, since each line takes at least one byte.
-- - Prelude.antt and its children: lists, maps, bits and tests that the parts share. Tests.antt and
--   its children: concrete inputs.
--
-- Not modelled: serialisation, the bytes of files, printing and logging, the scheduling of threads,
-- and the web request of the live parser. Where a lock can time out, its outcome is an argument.
-- If a call fails half way, what it made before stays in the stores: the values that are dropped then,
-- and the ends of channels in them, are not followed.
mod Prelude
pub mod Platform
pub mod RouterMask
pub mod Route
pub mod BestRoute
pub mod RibEntry
pub mod Advertisement
pub mod PrefixTable
pub mod Rib
pub mod Filters
pub mod Channel
pub mod MessageBus
pub mod Interface
pub mod StateMachine
pub mod Session
pub mod RibInterface
pub mod Process
pub mod Router
pub mod Topology
pub mod ThreadManager
pub mod Network
pub mod LiveBgpParser
pub mod MutexUtils
mod Tests
