-- ===== src/Lib.antt =====
-- RedrumDB: a server for a part of the Redis protocol with strings, lists, streams and channels. The
-- server's event loop reads requests, the parser splits them into a command and its arguments, and the
-- handlers work on a database whose values are texts, lists and streams. A stream keeps its entries in
-- listpacks, which are the values of a radix tree.
--
-- The event loop of `run` takes a connection out of a slab, reads into its buffer, parses a request, looks
-- its handler up in the table of the commands, and queues the reply. What a handler publishes is sent by the
-- loop, which also blocks the clients of BLPOP, wakes them after a push, and cleans up behind expired keys
-- and waits. The modules:
--   Radix      src/data_structures/radix.rs. `RadixNode` and its list of children are two data types; the
--              loops over the children are recursions on that list. `insert` runs on the height of the
--              tree as fuel. `write` is the assignment through the reference that `get` returns.
--     Strip, Siblings, Insert, Lookup    what insertions and writes do to lookups
--     Wf, Shape                          the shape of the tree
--   Listpack   src/data_structures/listpack.rs. The vector is a list of numbers below 256. The iterator
--              is a record; `collect` runs on the number of bytes as fuel.
--     Codec      the encoders and the decoder of one entry, with the bit operations
--     Number     `strict_parse_i64`; Number/Canonical, the texts that it reads
--     Forms, RoundTrip, Entry            an entry is read back as what was written
--     Represents, Append, Laws, Cursor   a listpack and its iterator as lists of values; Built, a listpack
--                that appends give
--   Stream     src/data_structures/stream.rs. `Stream::add` is `add`, with `place` for what follows its
--              first test. The B-tree map is the list of its keys, the greatest first. The search runs on
--              the number of bytes as fuel.
--     Id, Parse                          `StreamID` and its parser, with the clock as an argument
--     Find, Search, Write                the search in a listpack, and `append_entry`
--     Log, Order, Chunks, Frame, Add, Laws a stream as the log of its entries
--   Parser     src/commands/parser.rs, with the panics of the source.
--     Usize, Request                     `parse::<usize>`, and which requests are read
--     Isize      `parse::<isize>`
--   Database   src/types.rs. A map is an association list with the laws of a map (Base/Dict), a heap the
--              list of its elements in the order of `pop` (Base/Heap), and an instant a number of
--              nanoseconds.
--   Commands   src/commands/mod.rs and src/commands/handlers. A handler is a function of the arguments and
--              the context that returns a reply or an error, and the context; `command_handler` is the
--              macro of that name, and `command_table` the table. The clocks and the greatest `Instant` are
--              the fields of `Env`.
--     Context, Reply, Core, Table        what the handlers share, PING, ECHO and TYPE, and the table
--     Refused    the commands that the pub/sub mode does not have
--     Tracked, Tracks                    the heap of expiries under every handler
--     Strings    `set` and `get`; Expiry, the options of `set`; Laws, what `get` reads
--     Lists      the commands on lists; Range, the indices of LRANGE; Laws, Pops, Select, a list as the
--                sequence of its items
--     Streams    `xadd`; Laws, a stream's log under its key
--     Pubsub     the channels; Laws, the subscriptions against the tokens
--   Server     src/server. `Shared` is what `run` keeps between two events.
--     Connection src/server/connection.rs, with the slab as an interface: operations and their laws.
--                `writable` says that the socket is registered for writing.
--     Expiry     src/server/expiry.rs; Expiries, what is removed and what clients see of it
--     Blocking   src/server/blocking.rs; Waiting, a push and the client that it
--                wakes; Blocked, the events of a client that waits; TimedOut, those whose time is over
--     Request, Deliver, Event            src/server/mod.rs: the handling of a request, the messages to the
--                subscribers, and one event with the results of its system calls
--     Loop       the steps of `run` as a relation. Four invariants of every state that they reach: in
--                Flushing, Steps and Reach, that of the bytes to write; in Queued, Woken, Waits and Kept,
--                that of the queues of the clients that wait; in Tracking, Lasting and Expiring, that of
--                the heap of expiries; in Ticks, Timed, Overdue, Sleeps and Deadlines, that of the
--                heap of the deadlines
--     Delivery   what subscribers are sent; Refusals, what they are refused
--   Base       numbers, words, lists, results and texts that these share. A `Result` has a third case for
--              a panic.
--
-- `usize` has 64 bits. Machine arithmetic is written out with its checks and casts; where a sum can leave
-- its word in the source without a check, a parameter says whether overflow checks are compiled in.
-- A vector's capacity is not modelled, nor is a failure of the allocator.
--
-- Not modelled: the listener and the poll with their errors, which end `run`; what the poll may wait is
-- `poll_timeout`. The results of `read` and `write` are those of
-- an event, so that every schedule and every split of a request is a run of the model. The timeout of BLPOP
-- is a floating-point number, whose parse is the argument `TimeoutParser`. That `Slab::insert` takes the key
-- that was removed last is a law of the interface, on which the event loop relies.
pub mod Base
pub mod Radix
pub mod Listpack
pub mod Stream
pub mod Parser
pub mod Database
pub mod Commands
pub mod Server
