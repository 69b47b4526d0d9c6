-- ===== src/Lib.antt =====
-- Verification library of yakushima, a concurrent key-value tree (a trie of B+ trees).
--
-- A key is cut into slices of 8 bytes. A layer of the tree routes a slice through interior nodes
-- to a border node, whose entries hold a value or the root of the next layer. Each node has a
-- version word, which is its lock and by which readers see that a node has changed. Sessions
-- retire nodes and values with their epoch, and a collector frees them later.
--
-- Which file models what:
--   Common             faults as Option, Boolean tests, lists, 64-bit words and bit operations
--   Scheme             include/scheme.h: constants, status codes, end points of scans
--   Permutation        include/permutation.h: the order of the slots of a border node in a word
--   Version            include/version.h: `node_version64_body` and the loops of `node_version64`;
--                      Version/Protocol has the threads that share one version word
--   Value              include/value.h over a memory of headers
--   LinkOrValue        include/link_or_value.h
--   Key                key slices, lengths and the comparisons of include/base_node.h,
--                      include/border_node.h and include/interior_node.h
--   BaseNode           include/base_node.h
--   InteriorNode       include/interior_node.h on one node; InteriorNode/Split the halves of
--                      include/interior_helper.h
--   BorderNode         include/border_node.h: searches; BorderNode/Change the insertion and the
--                      deletion of entries, with `insert_lv` of include/border_helper.h, and
--                      BorderNode/Split the split of a full node, from the same file, about
--                      which BorderNode/Parts, Divided and the other files Split... are
--   Tree               include/tree_instance.h and `find_border` of include/common_helper.h, over
--                      nodes by their address; Tree/Get include/interface_get.h, Tree/Put
--                      include/interface_put.h, Tree/Remove include/interface_remove.h.
--                      Tree/Grow is the way up from a split (include/border_helper.h and
--                      include/interior_helper.h), Tree/Unlink the way up from a node that is
--                      empty (`delete_of` of include/border_node.h and include/interior_node.h),
--                      Tree/Destroy `destroy` of the nodes
--   Scan               include/scan_helper.h and include/interface_scan.h: the decision about an
--                      entry; Scan/Border `scan_border`; Scan/Layers both `scan` functions
--   GarbageCollection  include/garbage_collection.h
--   Epoch              include/epoch.h, include/thread_info.h, include/thread_info_table.h and
--                      include/manager_thread.h, with their loops run alone; Epoch/Reclaim has
--                      sessions and epoch thread as one system of steps
--   DestroyManager     include/destroy_manager.h, with its threads
--   Examples           small inputs
--
-- Conventions: an operation takes the state that it reads and returns the state that it leaves. An
-- index out of range, a shift by the width of a word, and a read through a pointer to nothing are
-- faults, `none`. A loop that waits for other threads takes what its rounds see as a list, and is
-- `none` while the list is used up. A slice is its 8 bytes in the order of memory. Numbers are
-- unbounded, with the wrap-around of the fields written out.
--
-- The operations on the whole tree (find_border, get, put, remove, scan) take a history of the
-- tree, a state for each time, which stands for what the other threads do: each read of a node and each wait for a
-- stable version takes one unit of time, and a node is read as a whole at one time. Where a label
-- is jumped to, the operation is a machine whose states are its labels. What put and remove do under
-- the lock of a node is done at once, to the tree as it is when the lock is taken, with what they do
-- to the parents, which they lock on the way up; they return the tree behind it.
--
-- Bounds and fuel: the loops of a node have their trip counts (15 keys, 16 children). The loops of
-- the collector take fuel; one more than the queue holds is enough, and its theorems say that they
-- return. `insert_lv_at` takes fuel for the layers, of which a key has fewer than bytes. `interior_split`
-- goes up by recursion on the addresses for new nodes, of which each level takes one. The way up
-- from an empty node takes fuel for the layers, `destroy` for the nodes on the way down.
-- The operations on the tree take fuel for their rounds and waits; their theorems state how much is
-- enough where nobody changes the tree.
--
-- Parameters: the queue of the collector (a third-party library) is the record
-- `ConcurrentQueue` with its first-in-first-out laws for one consumer; the addresses that
-- `operator new` returns, the number of processors, and the call of `create_value` in put are
-- arguments.
--
-- Simplifications that matter: in Epoch/Reclaim each load and each store of a session or of the
-- epoch thread is one step, and all threads see them in one order; the epoch thread does not leave
-- its loop by the flag for the end of the program, and the objects that sessions retire, of which
-- `delete_at` retires a value before it unlinks it, are not part of that system. `destroy` destroys the
-- children of a node one after the other, where the code can give them to threads. `put` does not
-- hand out the address of the version of the node that it inserts into (the out-parameter
-- `inserted_node_version_ptr` of include/interface_put.h and include/border_helper.h).
--
-- Not modelled: string views that are null but not empty, the interleaving of other threads with the
-- way up from a split or an empty node, the lookup of a storage by its name, the table of storages,
-- `rearrange`, and all output, statistics and logging.
pub mod Common
pub mod Scheme
pub mod Permutation
pub mod Version
pub mod Value
pub mod LinkOrValue
pub mod Key
pub mod BaseNode
pub mod InteriorNode
pub mod BorderNode
pub mod Tree
pub mod Scan
pub mod GarbageCollection
pub mod Epoch
pub mod DestroyManager
pub mod Examples
