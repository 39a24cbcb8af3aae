-- ===== src/Lib.antt =====
-- lanxfer sends files, folders and messages between machines of one LAN. A receiver keeps a list
-- of the peers it has seen, stores what it receives in one folder, and logs every transfer in a
-- history file.
--
-- The files and the code:
-- - Base: tests, lists, results, strings (lists of bytes) and maps that the modules share.
-- - Decimal: the decimal digits that fmt prints, on n + 1 rounds for n, one digit a round.
-- - Utf8: the loop over the runes of a string. Unicode: Go's case tables, an argument.
-- - Netaddr: the values of net/netip that the code compares, without the zone of an IPv6 address.
-- - Peername: internal/peername/peername.go, Validate and Default.
-- - Identity: internal/identity/identity.go, Valid; Identity.Created: LoadOrCreate as steps that other
--   processes interleave, on the content of the one file that they share.
-- - Presence: internal/presence/registry.go. The map of peers is an association list; Observe, Tick
--   and Load are functions on it that also return what the Go function reports. Choose works on the
--   list of peers.
-- - History: internal/history/history.go. The file is its bytes; Append and ReadAll are functions
--   on them, and encoding/json is a pair of functions, the argument `Codec`.
-- - Chat, Chat.Regroup, Chat.Summary: internal/chat/chat.go. The store is a record with an association list of
--   chats; netip's ParseAddr and String are arguments. SetPeers scans the chats in the order of the
--   association list, with the memo of the code, and applies the sources in the order of their keys. A
--   caller's negative page size or offset reads as 0.
-- - Transfer: internal/transfer/transfer.go, the updates of one item under its lock and scaleProgress,
--   and internal/transfer/entry.go. The calls of OnUpdate are a list in the item.
-- - Transfer.Queue: internal/transfer/transfer.go, Manager with its workers, as steps: a step is a call of
--   a user, a progress callback, or what a worker does between two reads or writes of what it shares. An
--   item's context is the flag of its slot, cancelled with that of the manager. What a step learns from
--   the file system and the network is the argument `World`. Transfer.Queue.Texts: SendText.
-- - Discovery: internal/discovery/packet.go; encoding/json is the argument `PacketCodec`.
-- - Discovery.Responder, Discovery.Search, Discovery.Broadcast: internal/discovery/responder.go,
--   discover.go and broadcast.go. Serve and the search run on the list of the datagrams that arrive
--   before the socket is closed or the time is over; the sockets' other answers are arguments.
-- - Target: internal/target/target.go, on the results of the two searches.
-- - Resolve: cmd/lanxfer/send.go, resolveTarget and resolveByDiscovery, on the answers of the network.
-- - EventQueue: gui/queue.go, eventQueue. A round of drain takes all that waits and hands it out.
-- - Throttle: gui/queue.go, throttle, as steps between which time passes; a call of fire is one step,
--   which reads the state when the call gets the lock.
-- - Server.Filename, Server.Numbered, Server.Storage: internal/server/storage.go. The receive folder
--   is a map from names to files and folders. Save and commit take the answers of the operating
--   system as an argument, a record, and run the code's calls in order, the deferred ones last. A
--   placeholder that cannot be closed and a temporary entry that cannot be removed stay, as in the code.
-- - Server.Extract, Server.SaveDir: internal/server/extract.go. The tar reader is the list of what it
--   returns, and the file system's case folding is a function on paths, an argument. The files and
--   folders below the temporary folder are a map from such paths.
-- - Server.Requests, Server.Uploads, Server.Messages, Server.Local, Server.Handler:
--   internal/server/server.go, messages.go, inbox.go and local.go. A handler is a function from a
--   request and a world (the receive folder, the history file, what was printed, and the calls of the
--   two callbacks) to a response and a world. A response keeps its status and, of a body, the name
--   or the list that it carries. The body of a request is its bytes and whether it ended well;
--   http.MaxBytesReader cuts it. The recorder of the inbox and that of the server are the same file.
-- - Server.Inflight: internal/server/inflight.go; a channel is a number, and closing one twice is a
--   failure, as in the code. Server.Stale: RemoveStaleParts of internal/server/storage.go, on the list of
--   entries of the folder with what the system answers for each.
-- - Server.Terminal: the printing of internal/server/inbox.go.
-- - Client, Client.Scan, Client.Stream: internal/client/senddir.go. A folder is a tree with what the
--   system says of each entry, in the order of the walk, and the length of an encoded header is an
--   argument, for tarSize and for writeTar alike. Client.Send: send.go, SendDir of senddir.go, say.go
--   and client.go, with what net/http does with a request as an argument; in Client.Send.Receiver that
--   is the receiver's Handler. Client.Peers: LocalPeers of internal/client/local.go. Client.Record:
--   LocalRecord, and cmd/lanxfer/record.go.
-- - Netguard: internal/netguard/netguard.go; net and net/netip read and print addresses, `NetText`.
-- - Examples: the code at concrete inputs.
--
-- SaveDir calls the extractor and then commit; both Save and SaveDir call ValidateFilename, which the
-- extractor calls for each part of a path. The registry calls Validate of names and Valid of IDs. The
-- handlers of uploads call Save and SaveDir, that of messages the inbox, and those of uploads, messages
-- and local reports append to the history; the guards of Netguard stand in front of all of them and of
-- the responder, whose sightings go to the registry. Locate uses the searches of discovery for a peer of
-- the registry, and SetPeers of the chats takes the registry's list. The client's requests are met by
-- the handlers, and the command line's entries by that of local reports. resolveTarget calls LocalPeers,
-- Choose of the registry and Locate.
--
-- Bounds: resolve follows at most one alias more than there are, and commit tries 10,000 names, as the
-- code does; five steps end an uninterrupted LoadOrCreate, and eight turns of a worker one item.
-- Sequence numbers of items wrap at 2^64. Lengths and sizes are natural numbers: the code's int64 sizes
-- are lengths of streams that were read, and never negative. Times are natural numbers of nanoseconds,
-- 0 being Go's zero time in the history.
--
-- Not modelled: sockets, the parsing of HTTP, the log lines of the server, the node that starts the
-- parts, the GUI other than queue.go, the command line other than record.go and where a send goes,
-- modification times that are kept and permissions other than the executable bit, the text of error
-- messages, and interleavings of processes on the receive folder (a name that is reserved stays
-- reserved).
pub mod Base
pub mod Utf8
pub mod Peername
pub mod Identity
pub mod Unicode
pub mod Server
pub mod Decimal
mod Examples
pub mod Netaddr
pub mod Presence
pub mod History
pub mod Chat
pub mod Client
pub mod Target
pub mod Resolve
pub mod Transfer
pub mod Discovery
pub mod EventQueue
pub mod Throttle
pub mod Netguard
