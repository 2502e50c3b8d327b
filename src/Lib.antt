-- ===== src/Lib.antt =====
-- dhcp-batcher: what the program proxybatcher does with leases, and what holds of it.
--
-- The program runs in one of two modes. In batch mode the routers report their leases to an HTTP
-- endpoint, which checks each report and writes it to the batch table; a scheduler empties the table
-- from time to time and posts what it held to Sonar. In proxy mode the program forwards DHCP packets
-- between clients and servers, keeps a table of the leases that it has seen acknowledged, marks them as
-- expired with a timer, and the same scheduler posts that table.
--
-- The files, by the part of the program:
--   * Options is proxybatcher/options.go: the configuration; Options/Load is initConfig,
--     Options/Check is checkConfig, and Options/Check/Passes the requirements that it enforces.
--   * Endpoint is BatchModeEndpointRouter of proxybatcher/batch_mode.go, from the request to the
--     response and to the update that it starts. Its children are about what the checks accept
--     (Accept), who may write (Auth), the other answers (Reject) and panics (Panic);
--     Servers is configBatchModeTLS and configBatchModeServers of proxybatcher/options.go.
--   * Batch is proxybatcher/batch_scheduler.go: initTable, UpdateBatchTable, a tick of
--     RunBatchScheduler (cycle), and sendBatch up to the request that it hands to the HTTP client.
--     Batch/Table and Batch/Cycle are about one operation, Batch/Outbox is the abstract view of the
--     table that the operations implement, Batch/Run and Batch/Delivery are about whole runs,
--     Batch/Dispatch about the cycle time, and Batch/Loop about the loop of RunBatchScheduler and
--     its stop signal.
--   * Lease is proxybatcher/proxy_lease.go: addLease, init and a round of trim; Lease/Table is the
--     table's invariant, Lease/Relay is about option 82, Lease/Trim about rounds, Lease/Loop about the
--     loop of trim and its stop signal, and Lease/Printed about printDebug and printInfo.
--   * Proxy is ServeDHCP of proxybatcher/proxy_handler.go; Proxy/Request is about the packets of
--     clients, Proxy/Copied and Proxy/Reply about those of servers, Proxy/Ack about the lease that an
--     ACK makes, Proxy/Trace about sequences of packets, and Proxy/Start is startDHCPProxy up to the
--     state that it starts with.
--   * Server is proxybatcher/proxy_server.go: the filters of ReadFrom and Serve and what is written;
--     Server/Dispatch is about one round, Server/Due about what ServeDHCP returns to it, and Server/Loop
--     about many rounds.
--   * System is the batch mode as a whole: requests, the goroutines that they start, and ticks, in any
--     interleaving. System/Sources is about where assignments come from, System/Delivery about what
--     becomes of updates, System/Stale about the order of the goroutines, System/Start about
--     startBatchModeServer and a negative cycle time, System/Ending is the end of
--     startBatchModeServer, from the interrupt to the return, and System/Stop is about it.
--   * ProxySystem is the proxy mode as a whole: the two loops of startDHCPProxy with ListenAndServeIf
--     and ServeIf, the timer and the ticks, in any interleaving. ProxySystem/Grants is about one
--     datagram, ProxySystem/Leases and ProxySystem/Asked about all reachable states. ProxySystem/Ending
--     is the end of startDHCPProxy, and ProxySystem/Stop is about it.
--   * Configurator is proxybatcher/configurator.go: Configurator/Pages has the callbacks of each page,
--     Configurator/Forms what the pages show when they open, and Configurator/Password the random
--     password. The theorems are in Configurator/Servers and Configurator/Routers (the two lists),
--     Configurator/Entry, Configurator/Saved and Configurator/Unserved (what is saved),
--     Configurator/Shown (what is shown) and Configurator/Frames (which page changes what).
--     Configurator/Tables has the two tables beside the pages: Tables/Fill is about the loops that
--     fill them, Tables/Removed and Tables/Kept about rows and lists, Tables/Screen is the pages with
--     their tables, Tables/InSync is about the servers there and Tables/Routers about the routers.
--     Configurator/Menu is the menu, and Menu/Visible about what it leaves visible.
--     Configurator/Rerun is the file that is written and the next start of the program.
--   * Logging is proxybatcher/logging.go; Logging/Lines is about endpointLogger and Logging/Output
--     about initLogging.
--   * GoSlice is Go's slices over shared arrays, as the configurator uses them: GoSlice/Laws and
--     GoSlice/Grows are about append and removal, GoSlice/Last about the loop that looks for the
--     element to remove, and GoSlice/Alias about two slices of one array.
--   * Main is main of proxybatcher/dhcp-batcher.go, and Main/Program the whole of it, from the file and the
--     flags on.
--   * Dhcp is the interface of package github.com/krolaw/dhcp4, which is not part of the repository:
--     the calls that the proxy makes, with their documented effects as laws. Dhcp/Model is a packet
--     that meets the laws.
--   * Net, Strings and GoMap are the parts of Go and of its standard library that the program calls:
--     ParseMAC and its printer in full, Atoi, ToLower, Replace, and maps. ParseIP and String of
--     addresses are an interface (Net.IpText), since nothing here depends on more than one law.
--   * Common holds the names that all files share, and Tests holds runs at concrete inputs.
--
-- How the code is modelled. A text, a byte slice and an address are lists of bytes; an int is ℤ with
-- its 64 bits where it is computed, and a uint32 and a byte keep their wrap-around written out. A map is
-- an association list in which every key stands once, and a loop over a map takes the order of its
-- visits as an argument, which may be any permutation of the entries. A run-time panic is
-- a value (none, or panicked), and an early return ends a chain of checks. A mutex makes each of the
-- operations on a table one step, so runs are sequences of whole operations. The goroutines that the
-- endpoint and the scheduler start are values: the update that the handler starts, and the batches
-- that the scheduler hands on. All loops are structural recursion on lists, so no fuel is used.
--
-- The configurator's callbacks come in any order: a session is a list of them, each with the texts that
-- the package tview passes or that the callback reads from a widget. The tables and the containers of the
-- pages are interfaces (TableWidget, PagesWidget) that state what the documentation of tview says of the
-- calls; the rows of a table and the visible pages are modelled with them. Labels, colours and the focus
-- are left out, since the program does not read them.
--
-- An interrupt moves the main goroutine from phase to phase (System/Ending, ProxySystem/Ending), while
-- everything else goes on. The channel of the stop signal has no buffer, so the signal is received when
-- the send ends, by one loop.
--
-- Not modelled: the log lines outside endpointLogger, initLogging, addLease and trim, the layout and the
-- help text of the configurator, the parsing of flags and of yaml, the sockets, and the HTTP client's
-- response, which is only logged. The router of a lease is a slice of the buffer that packets are read
-- into; its later content, which only printDebug reads, is a parameter of the printer. The map that the
-- two loops of the proxy share has no lock; a round of Serve is one step all the same.
pub mod Common
pub mod GoMap
pub mod Logging
pub mod GoSlice
pub mod Configurator
pub mod Options
pub mod Net
pub mod Strings
pub mod Endpoint
pub mod Batch
pub mod Dhcp
pub mod Proxy
pub mod Lease
pub mod Server
pub mod ProxySystem
pub mod Main
pub mod System
pub mod Tests
