-- ===== src/Lib.antt =====
-- The key-value server of this repository: the dictionary of package `database`, the line protocol and
-- the handlers of package `server`, its start and its shutdown, and the client library.
--
-- A key goes to one of the sub-dictionaries by the function `String` of pcas_hash (the parameter `pcas`),
-- and within it to a bucket by the method `hasher` (the parameter `hash`, or `pure_hash h` in the theorems:
-- a hash function that returns). Both are arbitrary functions. A sub-dictionary has a main table and,
-- while it grows, a rehashing table, to which `add` and `del` move the entries bucket by bucket. The
-- server's sessions and handlers call `Get`, `Set` and `Del` of the database.
--
-- Prelude: Boolean tests on numbers, lists by native numbers, byte strings, and `Run`, in which a Go
-- panic or exit is the value `fault`.
-- Database/Entry (database/DickEntry.go): an entry and its chain. A `next` pointer is the rest of a list.
-- Database/Table (database/dickTable.go, `nextPower` of database/dick.go): one table. An int64 is its
-- 64-bit pattern, with the wrap-around written out. Database/Power: the value of `nextPower`.
-- Database/Sub (database/dick.go): the methods on one sub-dictionary, on the state `SubDick`. Its children
-- hold the proofs: Buckets and Valid the invariants `IsTable` and `IsSub` and the map `view` that a
-- sub-dictionary stands for, Edit and Change the writes to one chain, Expand, Move, Skipping, Finish,
-- Rehash and Ends the growth, Search, Add and Delete the three operations.
-- Database/Hashing (database/dick.go): the choice of the hash function. SipHash and FNV are parameters.
-- Database/Salt (`GenerateSALT` and `split` of database/dick.go): the keys of SipHash; what the random source
-- gives is a parameter.
-- Database/Dick (database/operations.go, database/db.go, `NewXDICK`): `Get`, `Set` and `Del`. Each holds
-- the lock of its sub-dictionary from before its first read to its return. Dick/Valid has the invariant,
-- Dick/Methods the three methods.
-- Database/Locks (database/operations.go): many goroutines at these methods, with a mutex for each
-- sub-dictionary; a call is four steps, and the steps of the goroutines interleave. Locks/Owners has the
-- invariant of the mutexes, Locks/Commit the write of a call, Locks/Linear the run. Elsewhere a method is
-- one step.
-- Database/Refines: sequences of requests against a finite map, the abstract view of the dictionary.
-- Database/Modes: the same from the start, with `hasher` in a known mode.
-- Server/Session (server/socket.go, server/constants.go): the state of a session and the replies.
-- Server/Socket (server/socket.go): `handleSocketConn` on a TCP or TLS connection, one call of
-- `handle_line` for each line; which writes succeed is a parameter. Loops has its loops over keys,
-- Exchange whole requests.
-- Socket/Sound and Socket/Total follow a whole session from line to line. Server/Profile: a connection of the
-- Unix socket, with the commands of the profiler, which is nil without the flag `-pprof`.
-- Server/Web (server/ndb-server.go): the handlers of keys; what the router and the JSON decoder give
-- them are arguments. Server/Router: the routes of `CreateMux`, with the matches
-- of the router as a parameter. Server/Access: the access control list. Server/Settings: `initDB`.
-- Server/Listen (server/socket.go, `NewSocketHandler` and `Start`): the access list of the settings, and the
-- loops of the three listeners, each in steps between which the others run; a run follows a schedule.
-- Listen/Opens: which listeners are opened, with `net.Listen` as a parameter that may depend on the
-- sockets that are open; Listen/Taken: two listeners at one address.
-- Server/Keys (server/constants.go, `mapEnvsToConf` of server/configuration.go): the keys of the settings and
-- their environment variables. Server/Config (server/configuration.go): the defaults of a first start, the
-- environment, and `NewViperConf`, with the package viper as a record of its calls and their laws.
-- Server/Shutdown (main.go, server/factory.go, server/web-server.go, `CloseSocket` of server/socket.go): the
-- item of `stop_chan`, passed on from goroutine to goroutine, as a step relation.
-- Server/Serving (main.go, `NewNDBServer` of server/factory.go): the start, from the flags to the listeners.
-- Client (client/clilib/client.go): the requests and replies of the client, and its table of clients. Wire
-- joins it to the server: the bytes it writes are the lines the server reads. Escape and Http: the
-- escapes, and the calls of the web server. Connect (`NewCli`, `CliConnect`): how a client gets its
-- connection; Numbers and Reach: which number it gets, and when. Served joins the calls of Http to
-- Server/Router. LoadTest (client/main.go): a round of the load test with keys that count up, on one
-- connection; LoadTest/Random: the random keys; LoadTest/Words: what keys and values consist of;
-- LoadTest/Checked: what the test asks of a server;
-- LoadTest/Serves: the calls by HTTP to this server's database, as such a server. Workers (client/main.go): all workers of the load test with
-- the main goroutine, as a function of the goroutine that takes the next step; a channel is the items in
-- it. Its children: Main the main goroutine, Runs the runs in any order, Counts and Balance what the
-- workers hold and owe, Counted that it adds up, Stored what is on the server, Totals and Summed the sum of
-- the checks, Ready and Advance that some goroutine can move, Finishes, Measured and Bounded the
-- number of steps, OverHttp the test by HTTP against the server of this repository,
-- Counting the keys that count up, Stuck a `NewCli` that fails.
-- Utils (utils/utils.go): the number parsers and the random strings.
-- Logger (logger/logger.go): the levels, and `SetLogLvl`. Logger/Files: the log file and where the messages
-- go; Files/Lines: the lines of a file.
-- Tests: a dictionary in the course of a rehash, and the theorems on it; Tests/Serve: those on the server
-- and the client; Tests/Start: those on whole sessions, the start, the listeners, the
-- shutdown and new clients; Tests/Load: those on the load test; Tests/Web: those on the HTTP client, the
-- logger, and the start of the listeners and the program; Tests/Locks: the one on goroutines.
--
-- No loop of the source needs fuel: `rehash` counts its buckets and its empty visits itself, and the loops
-- over keys, lines and chains are structural. `print_digits` has as its fuel the number of digits, 20, which
-- a number below 2 ^ 63 has at most. The bound 2 ^ 63 on the number of entries in a
-- sub-dictionary keeps the int64 counters from wrapping.
--
-- Not modelled: pcas_hash (a copy of another project's library); the profiler itself;
-- the start of the net/http servers, whose parts are calls of the standard
-- library; the headers of a response; the time stamps and formats of the log, and its calls in the other
-- parts; the random source; the parse of the flags; the timers and the printed result of the client program;
-- and the counters of a session, which only the log reads.
pub mod Prelude
pub mod Database
pub mod Utils
pub mod Server
pub mod Client
pub mod Logger
pub mod Tests
