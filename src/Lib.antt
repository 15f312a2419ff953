-- ===== src/Lib.antt =====
-- Save is an object store with an S3 interface, distributed over the nodes of a cluster. Metadata
-- (buckets, objects, multipart uploads, locks) lies in RocksDB and is changed by commands of a
-- Raft log; the data of objects is replicated over the nodes by a write in two phases that needs a
-- quorum. This library models the metadata store with its state machine and snapshots, the files of
-- a node, the requests that nodes send each other, the replication of writes, deletions and reads,
-- and the cluster state that says whether there is a quorum.
--
-- Files and code:
--   Prelude          shared names, lists over native numbers, texts as lists of bytes, results
--   Validation       crates/save-common/src/validation.rs: validate_object_key (ObjectKey) and
--                    validate_bucket_name (BucketName)
--   Rocksdb          the interface of RocksDB, which is not in the repository: get, put, delete, a
--                    batch, a prefix iterator, each of which can fail. Rocksdb/Scan has the loop over
--                    an iterator that the program writes in several places; Rocksdb/Memory is an
--                    instance that runs, used by the examples
--   Metadata         crates/save-metadata/src: records and errors. Bucket is bucket.rs, Object is
--                    object.rs, Multipart is multipart.rs, Lock is lock.rs up to the distributed
--                    lock manager and LockManager the rest of it, Listing has the loop that list_buckets and list_objects share,
--                    StateMachine is raft/state_machine.rs with raft/commands.rs
--   Raft             crates/save-metadata/src/raft: Raft/Log is log_store.rs, Raft/Storage is
--                    storage.rs, and Raft/Snapshot is snapshot.rs
--   Storage          crates/save-storage/src: the interface of the file system, the errors.
--                    Storage/Layout is layout.rs, Storage/Objects is ObjectStorage and TempObject of
--                    lib.rs, Storage/Service is replication/service.rs, and Storage/Backend is
--                    replicated_backend.rs. Storage/Memory is a file system that runs, used by the
--                    examples, and Storage/Tree one with directories
--   Peers            crates/save-common/src/cluster.rs, with the text of join_via_leader in
--                    crates/save-api/src/scaling.rs
--   Config           crates/save-common/src/config.rs: the records, their defaults (Config/Defaults),
--                    and validate and load, with the file and the TOML parser as parameters
--   Replication      crates/save-storage/src/replication/coordinator.rs. Replication itself has
--                    replicate_write with the functions it calls, Membership the clients, Deletion
--                    replicate_delete, Reads read_from_replica; Health is health.rs and Retry is
--                    crates/save-common/src/retry.rs
--   Cluster          crates/save-storage/src/cluster: State is state.rs and Manager is manager.rs
--
-- A function that writes to the database takes it as an argument and returns it beside its result,
-- also beside an error. Theorems on the metadata hold for every database with the laws that
-- Rocksdb.antt states and every serialisation that reads back what it wrote. A write that reports an
-- error may be done or not.
--
-- A function that works on files takes the state of the file system and returns it beside its
-- result. Theorems on files hold for every file system with the laws that Storage.antt states; each
-- call of it may fail. A TempObject that goes out of scope is passed to drop, where it does so. The
-- hash is an argument. Storage/Backend puts a node together: its object storage with the coordinator
-- of Replication. The local write of the coordinator is the commit of the object storage.
-- Functions on files run one after the other; the overlapping writes of Storage/Service/Conflicts are
-- written out as sequences of its requests.
--
-- The cluster manager gives up the lock on its state between the parts of an operation. Each part is a
-- step in Cluster/Manager/Writes, with answers of the nodes of its own, and Sequences builds a heartbeat
-- and a discovery from these steps.
--
-- The other nodes are the record Nodes: what each answers to each request. Operations return the
-- messages that they send, in order. A request made in a task of its own is answered in the order of
-- asking; a task that does not end normally gives none. Hash maps are association lists in their
-- iteration order, which no theorem fixes.
--
-- Numbers are natural numbers. The request counter wraps at 2 ^ 64 and the counter of failed health
-- checks at 2 ^ 32, as in a release build; other counts are bounded by the length of a list in
-- memory. Log indices are numbers below 2 ^ 64, with their eight bytes as keys. Times are natural
-- numbers that the caller passes. The loop of retry_with_backoff runs on max_retries + 1 as fuel,
-- and it is shown to end; the digits of a part number run on ten, as many as a u32 can have, and those
-- of a 64-bit number on twenty. The loops that read a file are given fuel, and more than the length of
-- the file is shown to be enough.
--
-- Not modelled: the consensus of openraft and the network, the packing of a snapshot, what a directory
-- lists, the HTTP interface, the command line, the tuning of the database, generated code, the delays
-- between retries with the panic that a delay of 0 and a jitter end in, and requests on one node that
-- overlap in the middle of a function.
pub mod Prelude
pub mod Validation
pub mod Rocksdb
pub mod Storage
pub mod Peers
pub mod Config
pub mod Metadata
pub mod Raft
pub mod Replication
pub mod Cluster
