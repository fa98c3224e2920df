-- ===== src/Lib.antt =====
-- Negentropy, range-based set reconciliation: the C++ implementation under cpp.
--
-- Two sides hold sets of items, each a timestamp and an id of 32 bytes, and exchange messages until
-- the initiator knows which ids it has and which it needs. A message is a version byte and a sequence
-- of ranges; a range is an upper bound with a fingerprint of the items below it, their ids, or nothing.
--
-- The modules and the code that they model:
--   Encoding      cpp/negentropy/encoding.h: getByte, getBytes, decodeVarInt, encodeVarInt
--   Types         cpp/negentropy/types.h: Mode, Item, Bound, with their constructors and comparisons
--   Accumulator   cpp/negentropy/types.h: Accumulator and Fingerprint; SHA256 is a parameter
--   Storage       cpp/negentropy/storage/base.h: the operations of a storage, as the record Storage,
--                 and the contract Presents, by which a storage presents a list of items
--   Storage.Vector     cpp/negentropy/storage/Vector.h
--   Storage.SubRange   cpp/negentropy/storage/SubRange.h
--   Storage.BTree      cpp/negentropy/storage/btree/core.h: the limits, the nodes, and what the core asks
--                      of a store of nodes, as the record NodeStore
--   Storage.BTree.Search, Insert, Erase   searchItem, insertItem with refreshIndex and addToAccum,
--                      eraseItem
--   Storage.BTree.Reading   traverseToOffset, size, getItem, iterate, findLowerBound and fingerprint
--   Storage.BTree.Laws, Shape, Ids, Changes, Tree   what the core relies on in a store, when a store
--                      holds a tree of items, and what a change of one node leaves of it
--   Storage.BTree.Mem  cpp/negentropy/storage/BTreeMem.h: the store of the nodes
--   Protocol.Wire      cpp/negentropy.h: decodeTimestampIn, decodeBound, encodeTimestampOut,
--                      encodeBound, getMinimalBound
--   Protocol.Split     cpp/negentropy.h: splitRange
--   Protocol.Turn      cpp/negentropy.h: the body of the loop in reconcileAux, a function for each mode
--                      and role, and the loop
--   Protocol.Session   cpp/negentropy.h: the constructor, initiate, setInitiator, both forms of
--                      reconcile, reconcileAux
--   Prelude       shared notation, lists over native numbers, results of code that throws
--   Tests         data, witnesses and tests
--
-- State and errors. The members lastTimestampIn and lastTimestampOut, the query that is consumed and
-- the output that grows are passed explicitly; inside the loop they are the record Vars. Each text that
-- the code throws is a constructor of Prelude.Results.Error. A uint64 is a native number, and what may
-- wrap around is written with `% 2 ^ 64` or sub_u64. The protocol is over any record Storage; its
-- theorems ask for Presents, which Storage.Vector.Contract and Storage.SubRange.Contract provide.
--
-- Fuel. The loop of reconcileAux runs on fuel, and reconcileAux hands it the length of the query. Each
-- turn takes at least one byte from the query, so this is always enough: running out of fuel is an error
-- of its own, which is not among the errors that Protocol.Session.Replies leaves possible. Recursion
-- into a tree and the search in it are on fuel too: a number above that of the levels of the tree, which
-- the theorems ask for, and which an insertion raises by one at most. The limits on the keys of a node are
-- a parameter, Limits, with the static assertions as IsLimits; both sets of the code's are given. Ids of
-- nodes and counts of items are taken not to reach 2 ^ 64, where the theorems ask for it.
--
-- Libraries. std::sort is insertion sort, std::lower_bound the first position whose item is not below
-- the value, on ascending items, and std::unordered_set a list without repetitions, which is walked in
-- the order of arrival. OpenSSL's SHA256 is a parameter, of which only the length of its result is used.
--
-- Not modelled: the tree on LMDB (BTreeLMDB.h), whose pages are of a library outside the repository; the
-- wrapper for C (c), the port to JavaScript (js), the test programs (test); what an exception leaves of an
-- object of the class Negentropy; allocation; the text of the unsupported version in an exception. Of the
-- operations on a tree, erasing and iterating are modelled without theorems.
pub mod Prelude
pub mod Encoding
pub mod Types
pub mod Accumulator
pub mod Storage
pub mod Protocol
pub mod Tests
