-- ===== src/Lib.antt =====
-- oxutrm: the replicated screen and input queue, the data that crosses the wire, and how the two ends
-- find a path.
--
-- oxutrm keeps a terminal session alive over an unreliable network. The host holds the screen, the
-- client holds the queue of what was typed, and each side sends the other diffs of its value in
-- datagrams that may be lost, repeated or reordered. This library models the two crates that decide
-- whether both ends agree: crates/oxutrm-proto, the values and what makes them legal, and
-- crates/oxutrm-sync, the diffs and the protocol that carries them; of crates/oxutrm-net, how the ends
-- settle on a pair of addresses before the first datagram; of crates/oxutrm-term, what guards the
-- host's emulator from its child's output; and, of the program itself, what a client believes and
-- measures of its link, when it takes its route to have moved, and what it records of a session.
--
-- The files, and what they model:
--
--   Proto/Types       crates/oxutrm-proto/src/types.rs (limits, TextField, TermSize) and error.rs
--   Proto/Text        text.rs: a text is the list of its Unicode scalars; Spec says which texts are
--                     accepted, Fit what fitting does
--   Proto/Cell        cell.rs: Color, the one attribute that the code tests, and Cell
--   Proto/Clipboard   clipboard.rs
--   Proto/Links       link.rs: a URI is the list of its bytes, and the table, a BTreeMap, is a list
--                     of entries in key order (Base/SortedMap)
--   Proto/Frame       frame.rs: the datagram
--   Proto/Ids         ids.rs and name.rs: a session's id and its name
--   Proto/Screen      screen.rs: ScreenState, validate, validate_transition, blank, window; Valid is
--                     the invariants as a record, Window what a window keeps
--   Sync/State        crates/oxutrm-sync/src/lib.rs: the trait SyncState as a record of operations, and
--                     Lawful, the contract that its documentation states
--   Sync/Channel      channel.rs: Sender and Receiver. `update`, `on_ack`, `make_frame` and `on_frame`
--                     return the new end; `on_frame` is cut into `hear_ack`, `is_stale`,
--                     `next_state` (the fallible part) and `commit`
--   Sync/Input        input.rs: InputState, its diff, and that it is lawful (Contract)
--   Sync/Screen       screen.rs: Runs and Patch (a row's runs, made and painted), LinkDiff (the link
--                     table's changes), the diff itself, and that it is lawful (Contract)
--   Sync/Link         the two ends and the network between them. A step is new output at the host, a
--                     call of `make_frame`, the arrival of any frame that was ever sent, the issue
--                     of an acknowledgement, or the arrival of any that was ever issued. Loss is a
--                     step that never comes; repetition and reordering are free
--   Proto/Addr        the standard library's socket addresses, as far as they are used
--   Proto/Rungs       types.rs: candidates, address families, the rungs of the ladder
--   Net/Socketfam     crates/oxutrm-net/src/socketfam.rs: mapped addresses
--   Net/Priority      candidates.rs: priorities, and addresses that are of no use
--   Net/Demux         demux.rs: STUN or QUIC
--   Net/Stun          stunmsg.rs: roles, credentials, building and verifying; Documented is what is assumed of
--                     the codec, the HMAC and HKDF, Signed what each end can make the other believe
--   Net/Ice           ice.rs: the agent. `run` is cut into `enter`, what it does before its loop, and
--                     `turn`, one round of it, with what the clock, the sockets and chance have in
--                     store as the argument. Tables has its maps, History what has happened to an
--                     agent, Nomination that its tables claim no more, Best the choice among pairs,
--                     Chosen what it settles on, Strangers what it ignores
--   Term/OscGuard     crates/oxutrm-term/src/osc_guard.rs: `feed`'s loop as rounds over what is handed
--                     over, what is pending and what is left. Reading has the parser's states as that
--                     file documents them, Limits the caps, Trail, Steps and Refines the guard and
--                     the parser side by side, Passing, Transparent and Pieces what passes unchanged
--   Program/LinkState src/linkstate.rs: what a client believes of its link; Events is what the session
--                     loop does to it, Outage and Detection what follows
--   Program/Activity  src/activity.rs: the ring that the popup shows and the lines of the log file.
--                     What is written to the file is the list of its lines, returned, and whether a
--                     write fails, with the time and the text of its error, is an argument (Fault).
--                     Ring is eviction, Lines the runs of repeats, Texts what is recorded of a text
--                     and Dates the date in a line, for times from 1970 on, which is all that it is
--                     called with
--   Program/Quality   src/quality.rs: the minute of measurements; Segments is the change of link,
--                     Extremes the statistics of round trips
--   Program/Roam      src/roam.rs: the route watch and the hold between probes
--   Client/Legible    crates/oxutrm-client/src/popup.rs: legible and summarised; Safe is that they yield
--                     nothing a terminal acts on
--   Examples          concrete runs
--
-- A time of the client is the nanoseconds since some origin, and time past the clock's end is not
-- modelled.
--
-- How the numbers stand: u16, u32 and u64 fields are natural numbers. Where the code saturates or
-- truncates (the sequence numbers, the counters, `as u16` in row_runs, the input's byte counts) the
-- model does too. The link's histories are those in which the host's sequence number stays below
-- u64's maximum, since from there on `update` numbers two states alike. The index arithmetic of a
-- row is bounded by the screen's limits, which `validate` checks.
--
-- Loops: `feed`'s loop has a round for each byte as fuel, and Rounds shows that to be enough. The
-- loop of the agent's `run` is a history of turns of any length.
-- The buffer loops are recursions on the lists. `row_runs` moves by whole runs, so its model
-- `scan` has fuel, one round for each cell and one more, and `row_runs_paint` holds at that fuel.
--
-- Parameters, since their code is not the repository's: postcard (encoding a diff or a frame to bytes)
-- and zstd (compression, and a reader that yields the first n bytes). What is assumed of them is that
-- decoding undoes encoding, that decompression undoes compression, and that the reader yields a
-- prefix. Nothing is assumed where a theorem is about hostile bytes. Of the STUN codec and its HMAC
-- it is assumed that encoding makes a STUN message that decodes to what it was made of, but for an
-- IPv6 address's flow label and scope, that a signature holds under its own password and, where that is
-- named, under no other of its length; of HKDF and base64, where that is named, that a key gives the two
-- directions 43 characters each and different passwords. Of the parser
-- behind the OSC guard it is assumed that it starts, keeps and ends an OSC as osc_guard.rs says.
--
-- In Program/Quality the floating-point division of bytes by seconds is a parameter, `per_second`, of which
-- nothing is assumed.
--
-- Not modelled: the words of an error's message beyond which message it is; the sharing of an
-- `Arc<str>`; memory and time. Of the crate oxutrm-client only the two
-- texts' functions are modelled; of activity.rs not the file itself, its rotation and its clock, of
-- quality.rs not the share of lost datagrams and the sparkline, of roam.rs not the probe's socket. The
-- crate oxutrm-host and the rest of the program in src are not modelled, nor, in oxutrm-net, the sockets, QUIC, the router's mappings and the birthday
-- blast, in oxutrm-term the emulator and its processes, in oxutrm-proto the key material and the
-- signalling messages.
pub mod Base
pub mod Proto
pub mod Sync
pub mod Program
pub mod Net
pub mod Term
pub mod Client
mod Examples
