-- ===== src/Lib.antt =====
-- powerlink-rs: a model of the core of the Ethernet POWERLINK stack in crates/powerlink-rs.
--
-- A POWERLINK network has one managing node (MN) and up to 239 controlled nodes (CN) that share a
-- cycle: the MN sends a SoC, polls the CNs by PReq, each answers by PRes, and a SoA gives one
-- node the asynchronous slot. The parts of the stack that are modelled, and their files:
--
-- - Types, Hal: node numbers, message types and errors of crates/powerlink-rs/src/types.rs and
--   crates/powerlink-rs/src/hal.rs.
-- - Od: the object dictionary of crates/powerlink-rs/src/od. Value and Entry are its data, Bytes
--   the bytes of a value, Dictionary reads and `write_internal`, Commands the store and restore
--   commands of commands.rs, Write the checked `write` of mod.rs, which calls them and
--   Pdo.Validator, Names and Configured `find_by_name` and `get_configured_cns`, Restore
--   `restore_power_on_values` and `increment_counter`. Predefined and Defaults are the objects of
--   predefined.rs and utils.rs, Storage `init` of storage.rs, which lays the stored parameters
--   over them, and History the error history, whose entries are in Dll.ErrorEntry. The storage
--   trait of the platform is the record `StorageBackend`, a parameter over its own state.
-- - Nmt: the network management of crates/powerlink-rs/src/nmt. State and Event are states,
--   commands and events with their codes, Reset the cascade of `NmtStateMachine::reset`, Cn and
--   Mn `process_event` of the two machines, which write the state to object 0x1F8C of the
--   dictionary.
-- - Dll: the data link layer of crates/powerlink-rs/src/frame. CsMachine and MsMachine are the
--   cycle state machines of a CN and of the MN, Counters and MnCounters the error counters of
--   crates/powerlink-rs/src/frame/error. The error codes of unexpected events in NMT and DLL are
--   those of the enumerations.
-- - Mn: the scheduling of the MN in crates/powerlink-rs/src/node/mn. State is what it keeps of a
--   CN, Validation the checks of validation.rs, Bootup `check_bootup_state`, which drives the NMT
--   machine of Nmt.Mn, Ident, AsyncOnly and Isochronous the searches of scheduler.rs.
-- - Pdo: process data. Mapping is an entry of crates/powerlink-rs/src/pdo/mapping.rs, Validator
--   the check of a mapping in crates/powerlink-rs/src/od/pdo_validator.rs.
-- - Sdo: service data of crates/powerlink-rs/src/sdo. Sequence is the codec of the sequence
--   header, Handler `process_sequence_layer` of the server, Command the codec of a command and
--   Requests the payloads of command/base.rs, Transfer the segments of an upload and Download
--   those of a download in state.rs, with the write to the dictionary. Handlers are the handlers
--   of the commands in handlers.rs, and Server is `handle_request` of sequence_handler.rs, which
--   composes all of these, with `tick`. Server/Parsers says what a request is read with, Server/Life
--   runs a server over its calls, with the application of each, and Server/Retries over ticks alone.
-- - Frame: the frames of crates/powerlink-rs/src/frame. Header, Soc, Soa, Asnd, Preq and Pres are
--   their codecs, Wire `deserialize_frame` of codec.rs and `serialize_frame_action` of
--   crates/powerlink-rs/src/node/mod.rs.
--
-- Parameters stand for code outside the stack: `is_utf8` for the test of `String::from_utf8` of
-- the standard library, `text_bytes` for the bytes of a text, `SdoCommandHandler` for the
-- application and `StorageBackend` for the storage. No property asks anything of them but where
-- it says so.
--
-- State is passed explicitly: a method on `&mut self` is a function that returns the new record
-- beside its result. Numbers are naturals below the width of their type, with the wrap-around or
-- the saturation of the source written out; where the source adds without either, as for the
-- deadlines of SDO, the sum wraps as in a release build. A `BTreeMap` is an association list
-- (Common.BTree), a `Result` is the type of Common.Outcome. What is only logged is left out.
--
-- In the path of an SDO request a read outside a slice, which panics, is `none` (Common.Bytes
-- `slice` and `inside`): in `handle_request`, the decoder of a command, the payloads of the
-- requests, the decoder of a value and the segments of an upload. The other codecs read by total
-- functions after the tests of the length that the source makes, and say nothing of panics.
--
-- The loop of `find_next_node_to_identify` runs on fuel, one unit for each pass; 240 passes are
-- enough after a node number below 239, for which see Mn.Ident.Order, and no number of passes is
-- enough in the case of Mn.Ident.Stuck. The calls of the isochronous poll in one cycle take one
-- unit more than there are nodes. All other functions are structural.
--
-- Not modelled: the payloads of IdentResponse and StatusResponse, the cycles of both nodes
-- (crates/powerlink-rs/src/node/cn, crates/powerlink-rs/src/node/mn/cycle.rs), the clients and the
-- transports of SDO, the connections of the SDO server beside one another, the copying of PDO
-- payloads, and the choice of the asynchronous action. The parser of device descriptions
-- (crates/powerlink-rs-xdc), the platforms and the monitor are input and output around the stack.
pub mod Frame
pub mod Common
pub mod Hal
pub mod Types
pub mod Sdo
pub mod Od
pub mod Dll
pub mod Nmt
pub mod Mn
pub mod Pdo
