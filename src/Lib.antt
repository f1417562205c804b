-- ===== src/Lib.antt =====
-- OTS, a relay and calendar for OpenTimestamps: a proof (.ots file) leads from the digest of a file,
-- by operations on messages, to attestations that a Bitcoin block or a calendar holds a message.
--
-- The parts, from the bottom up, and the files that model them (paths from the repository's root):
-- * Serialize models internal/core/serialize/serialize.go. A Context that is read is the list of the
--   bytes not yet read, and a reader returns its value with the bytes left; a Context that is
--   written is the list of the bytes written. The Go function ReadVarUint is read_var_uint, and so on.
--   A uint64 or an int keeps its width: `% 2 ^ 64` and the conversion to a signed number are written
--   out. The loops of WriteVarUint and ReadVarUint have ten rounds at most.
--   The slice that ReadBytes makes may have up to 2 ^ 48 bytes (max_alloc, on a 64-bit machine); for a
--   longer one, as for a negative length, make panics.
-- * Result holds the outcomes of a Go call: a value, an error, a panic. `stuck` is a loop of the model
--   that used up its fuel. Result.Ensures has the rules by which properties of do blocks are shown.
-- * Op models internal/core/op/op.go. The four hash functions come from Go packages that are not part
--   of the repository: they are the record Hashes, an argument, and HashLaws is the documented length
--   of their digests.
-- * Notary models internal/core/notary/notary.go, the attestations and the loop that sorts them.
-- * Prelude.Sorting has sort.Slice of Go, as the insertion sort that it is on fewer than twelve
--   elements; it sorts the operations of a node and the heights of a parsed proof.
-- * Timestamp models the proof tree of internal/core/timestamp/timestamp.go, Timestamp.Codec its
--   Serialize and Deserialize, and Timestamp.Detached the .ots file. A node holds its message, its
--   attestations and its operations, each with the node that it leads to. Deserialize takes the depth
--   that is left, 256 at first as in the code; its loop over the items has one round more than there
--   are bytes, and each round reads one byte at least.
-- * Timestamp.Shared models the same file where nodes are shared: New, AddOp, SetOpResult, Equal,
--   NonceTimestamp, CatThenUnaryOp, CatSHA256, CatSHA256d and MakeMerkleTree on a heap, in which a
--   pointer to a Timestamp is a number. Equal has one round for each node of the heap, and
--   MakeMerkleTree one for each leaf, since a level has fewer nodes than the one below it.
--   Timestamp.Shared.Unrolled reads the tree below a node, as a store gets it.
-- * Verify models internal/verify/verify.go, and Verify.Parse models internal/verify/parse.go. A
--   calendar client (Upgrader) and a source of block headers (HeaderSource, of
--   internal/bitcoin/client.go) are functions into Option, `none` where the call fails. The times of
--   blocks are seconds; the text of a detail or a reason is a constructor.
-- * Calendar.Journal models internal/calendar/journal.go: the bytes of the file, the offset of the
--   next write and the count. How a call of os.File ends is an argument. Calendar.Journal.Records has
--   the abstract view, a list of records of 44 bytes.
-- * Calendar.Store models internal/calendar/storage.go: the interface Storage as a record, and the
--   store in memory, whose map is the list of what was put, the latest first.
-- * Calendar.Store.Bolt models internal/calendar/store_bolt.go. The bbolt database is an argument, a
--   bucket with calls to read and write; BucketLaws is what bbolt documents of them.
-- * Calendar.DataDir models the file of the HMAC key of internal/calendar/datadir.go. How the calls of
--   the file system and of the random source end is an argument.
-- * Calendar.Service models internal/calendar/calendar.go. The time is an argument; Submit gives the
--   submitted tree as it leaves it, the service and the answer.
-- * Calendar.Aggregator models internal/calendar/aggregator.go on the heap of Timestamp.Shared: the
--   parts of Submit, one receive or flush of the loop, and Close are functions; a step that waits gives
--   `none`. The tree that the service leaves at the tip is written back into the heap.
--   Calendar.Aggregator.Answered puts the steps in any order.
-- * BlockProof models MakeTimestampFromBlock of internal/bitcoin/blockproof.go on that heap; the loop
--   over the levels has one round for each transaction of the block.
-- * Stamper models internal/stamper/stamper.go: New, Recover, the parts of step, IsPending and Status.
--   Stamper.Send is maybeSendTx, Stamper.Confirm is trackConfirmations with finalize, Stamper.Step is
--   step. The set of pending commitments is a list without repetitions, in the order in which a range
--   over the map meets them; the answers of the Bitcoin node and the time are arguments of each step,
--   and so is which records of the journal can be read. Stamper.Safe says what makes a commitment final, and
--   Stamper.Kept what is kept of the journal.
--   Stamper.Tracked.History puts ticks, appends to the journal, Puts into the store, crashes and restarts
--   in any order.
-- * Client models pkg/ots/stamp.go and pkg/ots/upgrade.go. A calendar client is a function; the polls
--   of UpgradeUntilConfirmed are a list of what the calendars answer each time, and behind the last
--   of them the context is done.
-- * Client.Pool models pkg/ots/pool.go: the URLs that NewPool keeps, and what Stamp, GetTimestamp and
--   GetTimestampAny make of the answers of the calendars, a list in the order in which they arrive.
-- * Examples runs the code on concrete inputs.
--
-- Every package calls those above it in this list only: Notary and Op read and write by Serialize,
-- Timestamp by all three, Verify walks a Timestamp and merges into it what a calendar sent. The
-- service adds operations to a Timestamp, and calls the journal and, by the interface, a store.
-- The stamper reads the journal that the service appends to, builds a merkle tree over the shared
-- nodes of what it read, and puts the trees into the store when the block proof succeeds.
--
-- Not modelled: a nil operation, digest or hash; a nil node, but for CatThenUnaryOp, whose nil argument
-- is a new node; the error texts; the canonical names of operations (TagName, OpString, Kind). In the
-- stamper, DefaultConfig and the defaults that New fills in are constants, and Run only calls step at
-- every tick. StripWitness of the block proof is the codec of btcd, an argument. The Bitcoin client
-- (internal/bitcoin/client.go) is JSON over HTTP. Of the rest, the text files of the data
-- directory (internal/calendar), the HTTP client (pkg/ots/client.go) and the HTTP servers
-- (api, cmd) are not modelled.
pub mod Prelude
pub mod Result
pub mod Serialize
pub mod Op
pub mod Notary
pub mod Timestamp
pub mod Verify
pub mod Calendar
pub mod Examples
pub mod BlockProof
pub mod Client
pub mod Stamper
