-- ===== src/Lib.antt =====
-- Verification of ZBOSS, a ZigBee stack in C: its scheduler and the data structures below it, the
-- clock, the frame check sequence of the MAC layer, the address tables, the detection of duplicate
-- APS frames, the size of the address blocks in the tree, packet buffers and their pool, CCM*
-- encryption, the binding and group tables of the APS layer, the neighbour table, and tree and mesh
-- routing.
--
-- How the parts interact: the scheduler (common/zb_scheduler.c) calls callbacks, immediate ones
-- from a ring buffer and delayed ones from a list by time, whose entries come from a free list; it
-- starts the software timer (common/zb_time.c) for the first delayed one. Times are 16-bit and
-- wrap. The address table (common/zb_address.c) maps references to addresses; the APS layer keeps
-- in its entries what it needs to detect duplicates (aps/aps_dups.c), and has a delayed callback
-- run their clocks down; its binding table (aps/aps_bind.c) refers to devices by references.
-- The neighbour table (nwk/nwk_neighbor.c) refers to devices by references too; tree routing and
-- mesh routing (nwk/nwk_cr_mesh_routing.c) ask it who is near.
-- Packet buffers (common/zb_bufpool.c) carry frames between the layers, which secure them by CCM*
-- (secur/secur_ccm.c).
--
-- The files and the code:
--   * Base: names of the libraries, Boolean tests, lists over the native numbers, a store of fields,
--     arrays as functions.
--   * Fcs: `zb_mac_fcs_add` of mac/mac_fcs.c: `table` is gl_fcs_table, `fcs_loop` the loop over the
--     frame, `fcs_add` the frame with its two check octets. Fcs/Equiv compares with a division bit by
--     bit, Fcs/Residue is about the receiver's check.
--   * Time: the macros ZB_TIME_SUBTRACT, ZB_TIME_ADD and ZB_TIME_GE of include/zb_time.h, with the
--     wrap-around of zb_time_t written out.
--   * Timer: `zb_timer_t` of include/zb_time.h, `zb_timer_start` and `zb_timer_stop_async` of
--     common/zb_time.c, as built for a host (no ZB8051).
--   * Ring: the macros of include/zb_ringbuffer.h, whose counters are 32-bit. A macro that hands out a
--     pointer into the buffer is an operation that hands out the index or the entry.
--   * Dlist: the doubly linked list macros ZB_LIST of include/zb_list_macros.h, on pointers: a pointer
--     is a number, NULL is 0, and each link field is a function from pointers. Dlist/Rep says when
--     pointers stand for a sequence of entries.
--   * Alarm: `zb_schedule_alarm` and `zb_schedule_alarm_cancel` of common/zb_scheduler.c and the
--     timer's part of `zb_sched_init` of common/zb_scheduler_init.c on these pointers, with the free
--     list that runs through the same fields. A loop over the queue has fuel 17, one more than
--     ZB_SCHEDULER_Q_SIZE entries need.
--   * Callbacks: `zb_schedule_callback` and the loop of `zb_sched_loop_iteration` over the immediate
--     callbacks. What a callback does is a parameter: it changes the rest of the state and names the
--     callbacks that it schedules. The loop takes fuel, and Callbacks/Ends says how much is enough.
--   * Shorts: `short_search` and `add_short_sorted` of common/zb_address.c. An array is a function of
--     the index; the binary searches have the number of elements as fuel, which is enough.
--   * Pans: `zb_address_set_pan_id` and `zb_address_get_pan_id_ref` of common/zb_address.c, an open
--     hash of 8 places; the bit vector of the places in use is a function of the index. The probing
--     loops have fuel 8.
--   * Dups: `aps_check_dups` and `zb_aps_check_timer_cb` of aps/aps_dups.c. The loop over the address
--     table has fuel 102, one more than ZB_IEEE_ADDR_TABLE_SIZE.
--   * Cskip: `zb_nwk_daa_calc_cskip` of nwk/nwk_address_assign.c, with the 16-bit power and the signed
--     quotient written out.
--   * Bufs: the packet buffer of include/zb_bufpool.h and the operations of common/zb_bufpool.c that make
--     or give up space in it; the octets are a function of the index, and 8-bit fields wrap. Bufs/Steps
--     has the operations with their asserts as a step relation.
--   * Ccm: secur/secur_ccm.c. `auth_trans`, `encrypt_trans`, `encrypt_n_auth` and `decrypt_n_auth` are
--     the functions of these names, on packet buffers; the block cipher is a parameter, of which the
--     theorems need that its blocks have 16 octets. A loop over a string has the length as fuel.
--     A write behind the array `decrypted_text` is the result none. Ccm/Pads has the chain of blocks
--     over padded strings, Ccm/Chain the standard's CBC-MAC, Ccm/Sealed the ciphertext that stands for
--     a message.
--   * Bind: `aps_find_src_ref`, `zb_apsme_bind_request` and `zb_apsme_unbind_request` of aps/aps_bind.c
--     on the tables of include/zb_aps_globals.h. A `do` loop is its body followed by a `while` loop;
--     their fuel of 256 is more than an 8-bit counter can reach. Bind/Valid has the list of bindings
--     that a table stands for.
--   * TreeRoute: nwk/nwk_cr_tree_routing.c: `zb_nwk_tree_routing_route` on the address blocks; the
--     look-ups in the address and neighbour tables are given by their results.
--   * Groups: `zb_apsme_add_group_request` of aps/aps_bind.c. A `for` loop counts down the rounds that are
--     left.
--   * Pool: `zb_init_buffers`, `zb_get_buf`, `zb_get_buf_delayed` and `zb_free_buf` of common/zb_bufpool.c
--     and common/zb_bufpool_init.c. The lists through buffers and entries are
--     sequences; a buffer that is freed twice is the result none. Pool/Taken counts the taken buffers.
--   * Shorts/Delete: `del_short_sorted` of common/zb_address.c, with the rounds of its loop counted down;
--     Shorts/Delete/Undo puts it behind `add_short_sorted`.
--   * Address: the rest of the address table of common/zb_address.c: compressed long addresses, the open
--     hash of 101 places, locks; Address/Entries has the operations that add, change and delete entries
--     (`addr_add`, `zb_address_update` and others). An assertion that fails is the result none. A loop
--     over the table has as much fuel as the table has places.
--   * Alarm/Due: the part of `zb_sched_loop_iteration` that runs the delayed callbacks that are due. A
--     callback names the alarms that it schedules or cancels.
--   * Neighbors: nwk/nwk_neighbor.c for a router: the base table; Neighbors/Ext the extended table,
--     Neighbors/Start the start and stop of its use, Neighbors/Next the iteration and the clock of frame
--     counters. It calls the operations of Address.
--   * Slots: the array macros of nwk/nwk_internal.h; Slots/Count says what their counter counts.
--   * Mesh: nwk/nwk_cr_mesh_routing.c and `zb_nlme_route_discovery_request` of
--     nwk/nwk_cr_route_discovery.c: Mesh/Types the tables and the events, which are the calls outside
--     them, Mesh the handler of requests, Mesh/Reply that of replies, Mesh/Expiry the periodical
--     functions, Mesh/Discover the start of a discovery. What the neighbour table and the MAC
--     header give is an argument.
--   * Tests: runs on concrete inputs.
--
-- Not modelled: trace output, assertions and interrupt masking, which change no state of the
-- model; the transceiver drivers and the platform layer, which are input and output; join,
-- formation and broadcast of the network layer, the security of the layers above CCM*, and the
-- device object. The AES code in secur/secur_ccm.c comes from another repository.
pub mod Address
pub mod Alarm
pub mod Base
pub mod Bind
pub mod Bufs
pub mod Callbacks
pub mod Ccm
pub mod Cskip
pub mod Dlist
pub mod Dups
pub mod Fcs
pub mod Groups
pub mod Mesh
pub mod Neighbors
pub mod Pans
pub mod Pool
pub mod Ring
pub mod Shorts
pub mod Slots
pub mod Tests
pub mod Time
pub mod Timer
pub mod TreeRoute
