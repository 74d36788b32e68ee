-- ===== src/Lib.antt =====
-- The PROFINET IO controller of this repository: cyclic exchange, alarms, and the frames
-- and records around them.
--
-- The program's parts and where they are modelled (paths from the repository's root):
--   * src/util.rs: the Ethernet header with its VLAN tags. Util, with `skip_vlan_tags` and `strip_eth`.
--   * src/rt.rs: Rt. Rt.Frame is `RtFrame` and the Ethernet frame around it; Rt.Config is `IocrConfig`
--     and `build_iocr_configs`; Rt.Builder is `CyclicDataBuilder`, whose double buffer is a record with
--     two lists of bytes and a flag.
--   * src/cyclic.rs: Cyclic. Cyclic.State is what the controller shares with its two threads, one
--     field for a mutex; Cyclic.Rx is `process_input_frame` with its parts in the order of the code;
--     Cyclic.Watchdog is `handle_watchdog_timeout`, `check_receive_watchdog` and a pass of `rx_loop`;
--     Cyclic.Tx is `next_output_frame`, `set_output_data` and a pass of `tx_loop`; Cyclic.Stop is
--     `start`, the safe image and `stop`; Cyclic.Calls puts passes of the loops and calls of the
--     application into any order. The receive path calls Util and Rt.Frame, and it and the
--     watchdog write consumer status into the Rt.Builder that the transmit path commits and sends.
--   * src/dcp.rs: Dcp. Dcp.Request builds the request frames; Dcp.Response parses the answers to Get and
--     Set, and Dcp.Identify the answers to Identify, with the UTF-8 decoding of their names.
--   * src/blocks.rs and src/rpc.rs: Blocks and Rpc, the record requests and their framing.
--   * src/alarms.rs: Alarms. Alarms.Item has the items and `parse_alarm_item`; Alarms.Notification has
--     `parse_alarm_notification` and `parse_alarm_cr_res`, and its children the notification on the wire.
--   * src/alarm_listener.rs: Listener. Listener.Header is `RtaHeader`; Listener.Frame reads and builds the
--     Ethernet frames; Listener.Sequencer is `RtaSequencer`, and Listener.Sequencer.Link a device that it
--     talks to; Listener.Channel is `AlarmChannel` with `service`; Listener.Pass is one pass of the receive
--     loop in `start`, which calls all of these and Alarms; Listener.Control is `AlarmListener` itself.
--   * src/transport.rs: Transport. Transport.Words reads and writes words in either byte order;
--     Transport.Header is the RPC header and `next_rpc_response`; Transport.Reply the NDR and record
--     headers; Transport.Blocks the blocks of a connect response, which Transport.Connect judges;
--     Transport.Control the control blocks and the confirmation of ApplicationReady; Transport.Session is
--     `RpcConn`, whose methods take what the transport does as an argument and call all of these.
--   * src/connect.rs: Connect, the blocks of a connect request, and Connect.Request, the submodules that it
--     expects and the requests; Connect.Layout compares the blocks with Rt.Config.
-- Prelude holds what they share: lists and Boolean tests on native numbers, slices of bytes, and
-- `Exec`, the four things a call can do: return (`ok`), return an error (`err`), panic (`panic`, an
-- index or a slice out of range), or run out of a model's fuel (`stuck`). `Yields m P` says that `m`
-- returns a value with `P`, `Returns m` that it returns a value or an error, `Gives m P` that it does and
-- a value has `P`. Tests applies the results
-- to a sample controller and to sample frames.
--
-- Conventions. A byte, a `u16` and a `u32` are natural numbers; sums wrap as written, and a field
-- written to the wire is cut by its own bytes. An array `[u8; n]` is a list, and its length is a
-- hypothesis where it counts. Instants and durations are microseconds. Time, what a socket answers
-- and whether a thread starts are arguments. A callback is an entry of a log, kept if it is
-- registered; a callback that calls back into the controller is a later call. An error's text is a
-- constructor with the values that it prints. Loops over bytes run on fuel: the loops over VLAN tags,
-- DCP blocks, write results and response blocks take at least four bytes a round, an alarm item takes
-- two, so the length of the bytes is enough,
-- and `Yields` and `Returns` exclude `stuck`. Counters of statistics wrap as in a release build.
--
-- Not modelled: the threads' interleaving below one pass of a loop, sleeping, sockets and packet capture
-- (src/pcap.rs, src/rawudp.rs, src/capture_check.rs), the high-level session (src/device.rs,
-- src/epm.rs), the constructors and the typed reads of `RpcConn` (src/transport.rs), diagnosis (src/diagnosis.rs), I&M records (src/im.rs), GSDML parsing (src/gsdml.rs, but for
-- `IoSlot`), tables of names and the command line.
pub mod Prelude
pub mod Util
pub mod Rt
pub mod Cyclic
pub mod Dcp
pub mod Alarms
pub mod Blocks
pub mod Listener
pub mod Transport
pub mod Connect
pub mod Rpc
pub mod Tests
