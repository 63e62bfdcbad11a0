-- ===== src/Lib.antt =====
-- A model of Vearch, a distributed vector database: its master, which keeps spaces, roles and the
-- partitions of a space, its router, which sends documents and queries to partitions and merges their
-- answers, and its partition servers: the raft store of a partition and the bookkeeping of backups.
--
-- A client's document goes to the router. The router has the space from the master: its partitions,
-- each with the lowest hash it holds (its slot), or with the range of times it holds where the space
-- has a partition rule. It finds the partition of each document, groups the documents by partition,
-- chooses a replica for each partition, and merges what comes back. A change of a space goes to the
-- master, which checks it against the fields and indexes of the space, tells the leader of each
-- partition, and writes the space to its store; the leader puts it through the raft log, and each
-- replica applies it to its engine and to the metadata it keeps.
--
-- * Space is internal/entity and the part of internal/master/services/space_service.go that makes
--   partitions. Space.Model has the records; Space.Lookup is Space.PartitionId, a binary search over
--   the slots, as a recursion on fuel: the length of the list is enough, since the interval shrinks
--   at each step. Space.Slots is the loop of CreateSpace that gives ids, names and slots, and the
--   loop of updateSpacePartitonRule that gives the slots anew. Space.Ranges is PartitionRule:
--   ToTimestamp, AddRanges, ValidateRange, Validate and RangeIsSame. Space.ByRange is PartitionIdsByRangeField.
--   Space.Placement is filterAndSortServer and selectServersForPartition, which choose the servers of
--   a new partition's replicas. Space.Rule is updateSpacePartitonRule, which adds and drops the
--   partitions of a range; the wait for new partitions is one answer of the environment. Space.Expand is
--   expandPartitions, and Space.Delete is DeleteSpace.
-- * Index is internal/entity/space.go: Index.Fields is UnmarshalPropertyJSON after the JSON decoder,
--   Index is ValidateIndexes and MergeFieldIndexes. Index.Change is AddIndexes and RemoveIndex of
--   internal/master/services/space_service.go, with notifyPartitionsIndexChange, the compensation, the
--   lock and the write of the metadata. The engine of each partition is a state, a step of it a
--   parameter, and which calls arrive is a function of the round and the partition. Of a round that ends with its
--   first error, the calls that are late act after the compensation.
--   Index.Change.Prepared is the list that AddIndexes makes, and Index.Change.Remove.Taken the index that
--   RemoveIndex takes out.
-- * Update is handleConfigurationUpdate and updateSpaceFields of the same file and MergeSchemaArray of
--   internal/ps/engine/mapping/parse.go, which makes the new schema of a space and stands in Update.Fields.
--   Update.Compatible has what the two tests of the fields ask.
-- * Raft is internal/ps/storage/raftstore: Apply, applyIndexChange, updateSchemaBySpace,
--   HandleLeaderChange, the checks of store_writer.go and store_read.go, and Close. Whether the store and the
--   engine point to one entity.Space is a field of the state; ApplySnapshot is left out. Raft.Members is
--   ApplyMemberChange, Raft.Replicas is ReplicasStatusChange, and Raft.Job is startTruncateJob as the list of its
--   rounds, so that its endless loop needs no fuel.
-- * Router is internal/client/client.go. Router.Split is PartitionDocs, PartitionDocsById and
--   UpsertByPartitions; Router.Merge is Merge, AddMerge, AddMergeResultArr, mergeSortedArrays and
--   AddMergeSort; Router.Replica is RoundRobin.Next and GetNodeIdsByClientType.
-- * Auth is internal/entity/user.go and internal/master/services/role_service.go. Auth.Names validates
--   names, roles and users; Auth.Access is ParseResources and HasPermissionForResources; Auth.Roles is
--   the role service over the store.
-- * Alias is internal/entity/alias.go and internal/master/services/alias_service.go: the aliases of
--   spaces, over the store of the roles.
-- * Number is internal/pkg/number/number.go: the prefix coding of int64 and float64 values. Number.Digits
--   has the digits that the bytes hold.
-- * Backup is internal/ps/backup/ref_count_manager.go: which versions hold a file, how often, and
--   when the file is deleted, with the mutex of the manager. A call that waits for it forever is a value of Run.
-- * Examples has small inputs, runs of the code on them, and the theorems at them.
--
-- Conventions. Numbers are natural; a uint32, an int64 or an int is its bit pattern with the wrap-around written
-- out, and int64 values are compared by Prelude.Int64. A Go error is Result, of which the code of the
-- error is kept and its text is not; code that can panic gives an Outcome. A Go map is an association
-- list; where code goes over one, the order, which Go leaves open, is that of the list, or a parameter (the
-- visited fields of MergeFieldIndexes, the visit_ functions of the configuration update).
--
-- Parameters. What is not code of the repository is an argument: the hash of a key, the cast of a
-- text to a time, sort.Slice, the order of scores, the test for a numeric rune, the JSON codec, the engine, the raft
-- library, and the answers of the store, of its locks and of the partitions. What a theorem asks of
-- them is a hypothesis of it.
--
-- Not modelled: the C++ engine, the raft library, generated code, the HTTP and gRPC layers, the caches of
-- the client, and all that only logs or measures.
pub mod Prelude
pub mod Space
pub mod Index
pub mod Update
pub mod Router
pub mod Raft
pub mod Auth
pub mod Alias
pub mod Number
pub mod Backup
pub mod Examples
