-- ===== src/Lib.antt =====
-- Verification of `signers`, a monitor of the validators of an Istanbul network (RedT).
--
-- The program connects to a Quorum node over JSON-RPC. Package redt (redt/redt.go) reads headers
-- through a cache, recovers from each header the validator that proposed the block and those that
-- sealed it, counts proposals and signatures, and displays each block: on the terminal
-- (`signers poll`, `signers monitor`) or as data for a web page (`signers serve`). Package history
-- (history/history.go) copies blocks into a SQLite database, upwards from the newest stored block
-- or downwards from the oldest, and answers lookups from it. Package client (client/ws.go,
-- client/quorum.go) holds one WebSocket: calls with their answers, and the subscription whose
-- notifications `signers monitor` and `signers serve` wait for. Package serve sends the blocks to
-- browsers, and main.go chooses what is run.
--
-- The model, by file (a function keeps its name, in snake_case):
--   Base            numbers, Go's int64 (Base/Int), strings as lists of bytes (Base/Text), Go code
--                   over a shared state (Base/Exec), functions that return an error
--                   (Base/Fallible) and their postconditions (Base/Ends), sort.Strings (Base/Sort)
--   Redt/Types      the data of redt/redt.go, and `Geth`, the calls that leave the repository:
--                   golang-lru, the node's RPC methods, go-ethereum
--   Redt/Node       RedTNode: HeaderByNumber, CurrentBlockNumber, toBlockNumArg, countersLock
--   Redt/Create     NewRedTNode, getValSet and the list `enodes`
--   Redt/Stats      sigHash, SignersFromBlock, UpdateStatisticsForBlock, InitializeStats
--   Redt/Report     SignersForHeader, DisplaySignersForBlockNumber, SignerDataForBlockNumber
--   Redt/Monitor    MonitorSigners and MonitorSignersWS
--   Redt/Peers      NodeInfo, Peers, DisplayMyInfo, DisplayPeersInfo
--   History/Sqlite  the rows, and `Sqlite`, the statements run by database/sql and go-sqlite3
--   History/Store   Open, MinBlockNumber, MaxBlockNumber, TimestampForNumber, Begin, Commit,
--                   InsertHeader
--   History/Download  HistoryForward, HistoryBackwards, showStats
--   History/Cached  SignerDataForBlockNumberCached
--   Client/Socket   webSocketClient: nextID, sendRPCMsg, subscribeChainHead, listen, resetConn
--   Client/Quorum   QuorumClient: rpcCall; Client/Quorum/Shutdown has Stop and the listener's
--                   goroutine as steps in any order
--   Serve           serveViaWS of serve/serve.go, for one window; Serve/Page has the texts of
--                   serve/index.go and the execution of the template
--   Serve/Site      ServeSigners: the windows of all browsers on one node, round by round
--   Types           Address, Hash and HexData of types/eth.go; Types/HexNumber has HexNumber with
--                   strconv.ParseUint
--   Main            main.go: the commands, and `Cli`, the calls of urfave/cli; Main/Options has the
--                   options that they declare, Main/Runs what they run and the exit code
-- The modules below these hold the proofs. Redt/Demo and History/Demo are a small node and a
-- database in memory, on which Redt/Tests and History/Tests run the model and the theorems, as the
-- Tests of the other parts do.
--
-- A call returns, ends the process (log.Fatal), panics, or waits for ever, for a lock or for a
-- header; the last three are values of `Outcome`, so each is part of what a function is shown to
-- do. Deferred calls run when a function returns or panics. The node is a function of the number
-- of calls made before and of the argument, so its answers may change from call to call; nothing
-- is assumed of it but what the hypotheses of a theorem name: of the cache (`CacheLaws`,
-- `StartsEmpty`), of the node (`Chain`, `Steady`: there every block has a number, is served and, but for the genesis block,
-- has its seals recovered), and of the database (`SqliteLaws`, `Reliable`,
-- `Willing`, `Opens`).
--
-- Bounds: int64 values wrap at 2^64 (`int64`), counters are 64-bit patterns. A `for` loop over
-- block numbers runs over `rounds`, the number of rounds that its test admits, so it needs no
-- fuel; the endless loops run over any given number of rounds or of received headers. Printing a
-- number makes 64 rounds, which is enough for every number below 2^64 in base 2 or more.
--
-- Not modelled: colours, boxes and the spinner of the terminal; time.Sleep; the records of
-- types/types.go, which have no functions; the parsing of the arguments by urfave/cli, which is a
-- parameter; logfilter/, which only copies the log of a container. A round of the listener is
-- given what the connection gives it: whether a dial and a write succeed, and what is read, with
-- its JSON decoded. The rounds of the windows of a server take turns and do not overlap. In the
-- model of serveViaWS it is given whether qc.Stop returns, and Client/Quorum/Shutdown tells when
-- it does.
pub mod Base
pub mod Redt
pub mod History
pub mod Client
pub mod Types
pub mod Serve
pub mod Main
