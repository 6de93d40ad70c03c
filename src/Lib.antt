-- ===== src/Lib.antt =====
-- BH-TicketSystem: the engine of a train ticket system, which reads one command a line and answers
-- it. The program is one C++ class, TicketSystemEngine (src/include/engine.h), whose members are
-- the users who are logged in, the accounts, the trains, the seats of each day, an index of stops
-- (src/include/stop_register.hpp) and the orders with their indexes
-- (src/include/transaction_mainenance.hpp). Its storages live in files (storage/).
--
-- The parts, and where they are modelled:
--   Hash            SplitMix64Hash of src/include/utils.h, on 64 bits with the wrap-around
--   Date            the calendar and the time stamps of the same file
--   Data            the structs of src/include/data.h and of the two managers
--   StopRegister    AddStopInfo, QueryDirectTrains, RequestSingleTrain, FetchTrainLeavingFrom and
--                   FetchTrainArriavingAt of src/include/stop_register.hpp
--   Transactions    TransactionManager of src/include/transaction_mainenance.hpp
--   Args            how a handler reads the tokens of a command, and the head of its response
--   Engine          the state: one field for each member of TicketSystemEngine that holds data
--   Users           src/user_system.cpp: AddUser, LoginUser, LogoutUser, QueryProfile, ModifyProfile
--   Trains          src/train_system.cpp: AddTrain and DeleteTrain; Trains.Release is ReleaseTrain,
--                   Trains.Query is QueryTrain
--   Seats           the loops over the stations of a journey in src/transaction_system.cpp
--   Tickets         QueryTicket of the same file; Tickets.Buy is BuyTicket, Tickets.Refund is
--                   RefundTicket, Tickets.Orders is QueryOrder, and Tickets.Transfer is QueryTransfer,
--                   Tickets.Transfer.Search is CheckTransfer
--   Execute         the switch of src/engine.cpp, Clean and Exit
--   Snapshot.Diff   GenerateDiff and ApplyPatch of dataguard/src/snapshot.cpp on the bytes of the files
--   Storage.Disk    DiskManager of storage/src/disk_manager.cpp; Storage.Disk.Contract is what it
--                   promises
--   Storage.Replacer  LRUKReplacer of storage/src/replacer.cpp
--   Storage.Pool    BufferPoolManager of storage/src/buffer_pool_manager.cpp, on the two before it;
--                   Storage.Pool.Guards is what a caller does with a page guard
--   MergeSort       MergeSort of stlite/algorithm.hpp
--   Stage           the states that tests and examples begin with
-- A handler is a function from the engine and the command to the engine and the response, or to the
-- exception that it throws. `x` of the source is `x` here, in lower case: AddUser is `add_user`,
-- which reads the arguments and calls `add_user_with`, the rest of the function. The handlers share
-- the engine and call nothing but the two managers; Execute picks one by the hash of the name.
--
-- Base holds what the parts share: Boolean tests and lists on native numbers, texts, results, and
-- the contracts of the two kinds of storage. Base.Map is a finite map, the contract of DiskMap
-- (storage/include/storage/disk_map.hpp) and of sjtu::map (stlite/map.hpp). Base.Index is a sorted
-- list of entries with one for each key, the contract of BPlusTreeIndexer
-- (storage/include/storage/bpt.hpp); an iterator is the list of the entries from its place on.
--
-- How the source is read:
--   - A command is the list of its tokens. Numbers in it are not negative, as the documentation of
--     the commands asks. A text is the list of its bytes, and fits in its `char` array.
--   - Integers are natural numbers; a field or a variable of w bits is reduced modulo 2^w where it
--     is written and the value may be larger. `int` does not overflow.
--   - A local variable that is not initialised, and an element of an array that is not written, is
--     read as zero or as the empty text. A read through an iterator at the end is the error
--     `undefined`. An exception ends the program: no state is returned with it.
--   - A place in the file of orders is an index of the list `orders`. Place 0 is the header page,
--     which no order is written to; the list begins with what reads there as a record.
--   - std::sort is an insertion sort. Logging is left out.
--   - The file of DiskManager is a list of pages of kPageSize bytes, which fseek, fread and fwrite
--     read and write whole; what is not written reads as zero. Memory that is new reads as zero too.
--   - A pointer to a Page is the number of its frame, a pointer to a node of the replacer's chains is
--     the number of the node. Where sjtu::map inserts on `operator[]`, so does the model.
--   - The compression of the patch, between GenerateDiff and ApplyPatch, is left out.
-- Loops over a range are recursion on the number of rounds, and loops over an index are recursion on
-- the entries that are left. MergeSort has one more than the length of the list as fuel for the depth
-- of its calls, each of which has half the list, and answers `none` where it runs out. Two loops have
-- fuel: the one of ApplyPatch has the length of the patch, of which each round reads a flag at least,
-- and the one that takes a frame's nodes off the replacer's chain has the length of the chain, of
-- which each round takes one.
--
-- Not modelled: the B+ tree and the disk map (storage/include/storage/bpt.hpp, disk_map.hpp), which
-- stand behind their contracts in Base, as the containers (stlite/) do; the tree of snapshots and
-- their files (dataguard/); latches, since the engine has one thread; and the loop of src/main.cpp
-- with its server, which is input and output.
pub mod Base
pub mod Hash
pub mod Date
pub mod Data
pub mod StopRegister
pub mod Transactions
pub mod Args
pub mod Engine
pub mod Users
pub mod Trains
pub mod Seats
pub mod Snapshot
pub mod Storage
pub mod MergeSort
pub mod Tickets
pub mod Execute
pub mod Stage
