-- ===== src/Lib.antt =====
-- A model of three programs of this repository: the distributed key-value store (分布式存储/src), whose
-- data nodes replicate a RocksDB database by Raft, with its client; the chat server (chat) with its
-- thread pool and its pool of database connections; and the older copy of that pool (mysql连接池).
--
-- Parts and files. Paths are below 分布式存储/src, where they name no other directory.
--   data_node/raft_node.cpp, raft_node.h (RaftNode)
--     Raft/Types: the members, the messages of proto/raft_rpc.proto, the callbacks as events.
--     Raft/Log: getLogEntry, getLastLogIndex, getLastLogTerm, the merging loop of
--       handleAppendEntries.
--     Raft/Node: the constructor, propose, elections, the handlers of votes and of responses,
--       sendAppendEntries.
--     Raft/Replica: handleAppendEntries, applyEntries, advanceCommitIndex, tick,
--       loadPersistedState, and one step of a node on an input.
--     Raft/Cluster/System: several nodes and a network between them, which loses and reorders
--       messages, but does not duplicate them, as a connection of TCP does; a node restarts with its
--       stored term and vote and any log. Raft/Cluster/Invariant: what holds of its nodes, of the
--       messages on the way and of the votes cast; each other file there treats one kind of step.
--     Proofs: Raft/Cluster/Election, Raft/Durability, Persistence, Votes, Applied, Applying,
--       Commit, Append, Replication, Proposing, Indices, Hazards.
--   data_node/rocks_engine.cpp (RocksEngine)
--     Storage/Rocks: RocksDB as a record of calls with their documented laws. Storage/Engine:
--       put, get, del, scan, writeBatch. Proofs: Storage/Scans. Storage/Memory: a database that
--       satisfies the laws.
--   data_node/raft_service.cpp (RaftService)
--     RaftService/Keys: encodeLogKey, std::to_string, std::stoull. RaftService/Recovery:
--       persistRaftState, recoverRaftState, onApply. RaftService/Host: the callbacks, tick,
--       propose, handleRaftMessage, onPeerMessage, getLeaderAddr. Proofs: RaftService/Numbers,
--       Loss, Restart, Machine.
--   data_node/kv_service.cpp (KvService), data_server.cpp (DataServer)
--     Kv/Messages: proto/kv_rpc.proto and protobuf as a record of calls. Kv/Service: handleGet,
--       handlePut, handleDelete, handleScan, dispatchClientRpc. Proofs: Kv/Answers. Kv/Plain: a
--       serialisation that parses back.
--   common/codec.cpp, and the reading loop of data_node/data_server.cpp
--     Wire/Frames: frames, written and read. Wire/Serve: DataServer::onMessage. Proofs:
--       Wire/Reading, Prefix and Pieces (bytes that arrive in pieces).
--   pd_server/shard_manager.cpp, pd_service.cpp, pd_server.cpp, common/shard_router.cpp,
--   client_sdk/router.cpp
--     Pd/Manager: ShardManager. Pd/Rebalance: scheduleRebalance and PdServer::tick. Pd/Router: the
--       two routers. Pd/Service: PdService and PdServer::onMessage. Proofs: Pd/Coverage, Balance,
--       Initial.
--   client_sdk/kv_client.cpp (KvClient)
--     Client/Link: sendRaw. Client/KvClient: connect, setRouter, sendToAddr, put, get, del, scan.
--       Proofs: Client/Tries, Redirects, Addresses (the text of an address), Alone and ReadBack (the
--       client and a data node joined).
--   common/config.cpp (Config), and readConf of chat/src/server/ConnectPool.cpp
--     Config/Text: std::getline, find, std::stoi. Config/File: the readers and the getters.
--   chat/src/server/ConnectPool.cpp (ConnectPool), mysql连接池/src/ConnectPool.cpp
--     ConnectPool/Pool: the operations. ConnectPool/Steps: their threads. Proofs:
--       ConnectPool/Conservation, Reaper, and Copy for the older copy of the pool.
--   chat/include/threadpool.h (ThreadPool)
--     ThreadPool/Pool: the operations. ThreadPool/Steps: the threads. Proofs: ThreadPool/Sums,
--       Invariant, Leaving, Fifo, Drained, Starting.
--   chat/src/server/usermodel.cpp (UserModel), chatservice.cpp (ChatService)
--     Chat/Tables: the SQL statements, and the database as a record of calls. Chat/UserModel: its
--       operations. Chat/Types: requests, replies, the map of connections. Chat/Service: the
--       handlers. Proofs: Chat/Logins, Closing.
--   chat/src/server/MysqlDB.cpp, and execute_base of mysql连接池/src/MysqlDB.cpp (MysqlDB)
--     Mysql/Library: the MySQL client library as a record of calls with their documented laws.
--       Mysql/Params: makeparam and the binding of parameters. Mysql/Wrapper: execute_base,
--       query_base and the templates. Mysql/Connection: the constructor, connection and the destructor.
--       Proofs: Mysql/Arguments, Closing, Rows.
--   chat/src/server/redis.cpp (RedisClient)
--     Redis/Client: the operations, and the two loops of subLoop. Redis/Steps: the threads. Proofs:
--       Redis/Serving, Queue, and Calls for the calls of ChatService.
--   Base and the files below it hold the shared helpers, and each Examples the concrete runs.
--
-- A client request reaches KvService, which on a leader proposes it to RaftNode; the node calls
-- back to persist its state, to apply committed commands, and to send messages; RaftService gives
-- these calls to RocksEngine and to the connections. In the model a method of the node returns the
-- next node, with its callbacks in the list `events`, newest first; RaftService.Host.settle then
-- runs them on the database and the outbox.
--
-- In a cluster of nodes a step is one of: a proposal, a tick, a reset of the election timer, the
-- delivery of a message and its answer, the loss of a message, and a restart. Messages on the way are a
-- list, of which any may be delivered next.
--
-- A client writes a frame to the address that its router names, and reads one back. The two pools are
-- step relations: each step is what a thread does while it holds the lock, or a change of an atomic
-- counter, and the threads interleave in any order. A worker is paired with the task that it runs, and
-- a connection is its number and the time of its last return.
--
-- A chat client's request is handled by one step of ChatService, which asks the user model, keeps the
-- map of connections, and hands messages to connections and to Redis.
--
-- Numbers are natural numbers; sums and differences of uint64_t that can leave the range are
-- add64 and sub64, which wrap at 2^64, and indices into a log are below its length, so they do not.
-- The clock and the random timeout are the argument Env. A mutex guards each method, so methods
-- run one at a time. The loop of applyEntries has as many rounds as positions lie between its two
-- indices; std::to_string as many as the number itself, which has no more digits than that; the
-- reading of frames as many as the buffer has bytes, since a frame has five or more; the loop of
-- query_base one more than the result has rows; the filling of a shard three, since each adds a peer
-- and it stops at three; sendToAddr as many as its retries. Times of the connection pool are
-- nanoseconds. The sizes of the pools are ints in the code; a counter goes down only where it is
-- positive, which the invariants show for the thread pool and for the chat program's connections.
--
-- Not modelled: muduo (connections, timers; a buffer is the list of its readable bytes), RocksDB,
-- protobuf, MySQL, Redis and sockets, which are parameters or lists of calls; the JSON library, so
-- that a request is the fields that its handler reads; log output; the snapshot messages, which no
-- code reads; the fields allow_stale and correct_leader_node_id, which no code reads or sets; program
-- entry points and the demo client; the client's connection to the placement driver; two handlers of
-- the chat service at once; the chat client (chat/src/client), which reads a terminal; the class
-- Thread.
pub mod Base
pub mod Chat
pub mod Client
pub mod Config
pub mod ConnectPool
pub mod Kv
pub mod Mysql
pub mod Pd
pub mod Raft
pub mod RaftService
pub mod Redis
pub mod Storage
pub mod ThreadPool
pub mod Wire
