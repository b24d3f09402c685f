-- ===== src/Lib.antt =====
-- A model of the auction server for nicknames in NewNameAuction/.
--
-- The program is a Windows server. Network threads (CNetServer) receive packets, out of the ring buffer
-- of each session, and post jobs; the
-- logic thread (AuctionServer::LogicThread) takes the jobs from its queue, runs the procedure of each
-- packet on the containers of players and auctions, and calls Update; the database thread
-- (AuctionServer::DBAccessThread) takes jobs of its own and asks the database. Messages are written and
-- read in CPacket.
--
-- Modelled, file by file:
-- Prelude and its children: shared names, Boolean tests, lists by native numbers, association lists
--   for unordered_map, outcomes with undefined behaviour as a value, machine words.
-- Packet: CPacket of NewNameAuction/Packet.h and Packet.cpp, each member function under its name
--   (`operator <<` is put_*, `operator >>` is get_*). Packet.Fifo has its specification as a queue of
--   bytes, with Packet.Fifo.Store and Packet.Fifo.Load, and Packet.Stream the rules by which messages
--   are followed.
-- Ring: CRingBuffer of NewNameAuction/ringbuffer.h and ringbuffer.cpp, each member function under its
--   name. Ring.Contents says which bytes it holds; Ring.Enqueue, Dequeue, Peek and Sizes.
-- Net.State: st_Session and the members of CNetServer (NewNameAuction/CNetServer.h). A pointer to a
--   session is its index; calls of Windows and of the handler are recorded in `calls`.
-- Net.Receive: the reception loop of WorkerThread and the memory of recvPost
--   (NewNameAuction/CNetServer.cpp); Net.Receive.Frames, Errors, Buffers, Split and Fuel.
-- Net.Sessions: Start, findSession, disconnectSession, releaseSession. Net.Accept: AcceptThread.
--   Net.Sending: sendPacket, sendPost. Net.Worker: WorkerThread, recvPost, ControlThread.
--   Net.Slots, with Steps, Partition and Reach, is about the stack of free slots over every step of the
--   threads; Net.Reuse about identifiers, Net.Release about releaseSession; Net.Stream, with Drain,
--   Last and Enqueue, about the packets of a session; Net.Reception about a completion of WSARecv as
--   a whole.
-- Net.Threads: findSession, releaseSession and AcceptThread at one session, one access of memory to a
--   step, with any number of threads and any turns. Net.Threads.Exclusion says which thread has the
--   session to itself, Net.Threads.Steps and Advance what each step keeps, Net.Threads.Reach and Attended
--   what holds in every run; Net.Threads.Reuse has the runs in which a slot is reused.
-- LockFreeStack: NewNameAuction/LockFreeStack.h, the word `top` with its stamp bit for bit.
--   LockFreeStack.Chain says which nodes it holds; LockFreeStack.Pop is about a pop with other threads
--   between its reads and its exchange, LockFreeStack.PushPop about the two alone.
-- MemoryPool: CMemoryPool of NewNameAuction/MemoryPoolBucket.h, and MemoryPool.Buckets CMemoryPoolBucket,
--   each member function under its name. MemoryPool.Blocks says which blocks are free and which in use,
--   MemoryPool.Buckets.Items the same of the items of the buckets, and MemoryPool.Buckets.Reach is about
--   the calls that threads make from the constructor on.
-- LockFreeQueue: NewNameAuction/LockFreeQueue.h, on nodes of the memory pool. LockFreeQueue.Chain says
--   which values it holds, with `rear` on the last node or before it; LockFreeQueue.Loop, Enqueue,
--   Dequeue and Start.
-- Profiler: NewNameAuction/profiler.cpp for one thread; Profiler.Rounds.
-- SessionSet: CSessionSet of NewNameAuction/CNetServer.h; SessionSet.Broadcast.
-- Auction.State: the records and containers of NewNameAuction/AuctionServer.h. A pointer to auction
--   data is its index in `auctions`. What the server hands to the network is recorded in `net`.
-- Auction.Text: the wide-string functions that the code uses.
-- Auction.Message: the SendPacket functions of NewNameAuction/AuctionServer.cpp, with the types of
--   CommonProtocol.h; Auction.Message.RoundTrip.
-- Auction.OwnList: OwnList_CheckAndInsert and the loop of EN_JOB_NICKNAME_CHANGE_ABLE;
--   Auction.OwnList.Slots.
-- Auction.Handlers and Auction.InitPackets: the packetProc functions, SendInitPackets and PacketProc.
--   Auction.Bid, Auction.Bid.Placed and Auction.Search are about bids and searches.
-- Auction.Register: EN_JOB_NICKNAME_REGISTER_ABLE; Auction.Register.Bounds.
-- Auction.Update: Update; Auction.Update.Stall, PriceOrder and Rule.
-- Auction.Logic: the jobs, the loop of the logic thread and the callbacks of CContentsHandler.
-- Auction.Db: the jobs of the database thread. The answers of the database are a parameter.
-- Auction.QueueKept and Auction.Drain: the fuel of the loop over the queue.
-- Auction.Growth and its children: what the logic thread never undoes.
-- Auction.Reach: the threads as a step relation; Auction.Idle, Auction.Reach.Idle and
--   Auction.Reach.Stopped.
-- Tests: concrete inputs.
--
-- Conventions. Numbers are natural numbers; an `int` is its 32-bit pattern, with wrap-around written
-- out, and a 64-bit time wraps at 2 ^ 64. `fault` is behaviour that C++ leaves undefined (an unset
-- variable read, a vector or list overrun) or that aborts (wcscpy_s on too long a string). A job runs
-- in one step: only the logic thread changes the containers, so that the threads meet in the two queues
-- alone. The memory that a pool hands out is a parameter (`Fresh`), as is what the stack holds
-- under a local array. In MemoryPool the address that `new` returns is a parameter of each call.
--
-- Fuel. `drain_jobs` takes the number of jobs it may run: the loop over the queue of the logic thread
-- goes on while others post, so that every length of a round is some fuel, and with the jobs that
-- are there the length of the queue is enough. `release_slots` takes the
-- count of the entry, which falls in each round. `frame_loop` takes the number of messages it may take
-- out: each has a header at least, so that one more than the bytes held is enough, which recv_done gives
-- it (Net.Receive.Fuel). `release_session` takes the number of its calls of itself: one is enough for the
-- session that has the slot, and two where the identifier of that session names its slot
-- (Net.Release). `enqueue_loop` takes the number of rounds: each round but the last moves `rear` by one
-- node, so that one more than there are nodes behind it is enough. `dequeue_loop` takes the number of
-- rounds, which go on while the counter promises a node that is not there: one is enough where the
-- counter is that of the nodes.
--
-- Not modelled: the calls of sockets and completion ports themselves, with Stop and the part of Start
-- that makes sockets and threads; two threads inside sendPost, the queue or the memory pool at a time,
-- and the packets of a session in Net.Threads; the destructors; the cipher of Encode_option, which no
-- configuration of the project turns on; the MySQL connection; Main.cpp, logging, the output of the
-- profiler and its numbering of threads, crash dumps and process counters, which are input and output.
pub mod Prelude
pub mod Packet
pub mod Ring
pub mod Net
pub mod LockFreeStack
pub mod MemoryPool
pub mod Profiler
pub mod LockFreeQueue
pub mod SessionSet
pub mod Auction
pub mod Tests
