-- ===== src/Lib.antt =====
-- FreelyCraftCodes, C and C++: an event manager, in which registered operators publish, subscribe
-- to and post events, and a thread calls the subscribers back; the connection-less events of its
-- successor IOC; the start of a service interface, PEC; and a tool for memory statistics.
--
-- The program's parts and the files that model them:
--   ThinkOs             result codes and integer widths (ThinkOS/TOS_BaseObjectTypes.h)
--   Evt/Id              event ids, their macros and the dispatcher's test of two ids
--                       (PlatIF_EVT/PlatIF_EventID.h); Evt/Id/Names is the catalogue of events
--                       (PlatIF_EVT/PlatIF_EventMetaID.h)
--   Evt/Types           the structs that clients hand over (PlatIF_EVT/PlatIF_EventTypes.h)
--   Evt/Slots           tables of pointers, and the loops over them
--   Evt/Oper            the registry: __PLT_EVT_isRegedOperID, __PLT_EVT_doRegOper,
--                       PLT_EVT_unregOper
--   Evt/Queue           the ring of events of _TOS_EvtQueue_T, with the section of
--                       __PLT_EVT_doPostEvtSRT and that of __PLT_EVT_EvtProcer_Thread under its
--                       mutex; Evt/Queue/Fifo is what it promises
--   Evt/Psdb            the tables of publishers and subscribers: __PLT_EVT_doPubEvts,
--                       __PLT_EVT_doSubEvts, PLT_EVT_unpubEvts, PLT_EVT_unsubEvts, and the
--                       dispatcher ___PLT_EVT_EvtProcer_callEachSuberCbProcEvt
--   Evt/Manager         all static variables as one record; Lifecycle has PLT_EVT_initEvtManger,
--                       PLT_EVT_deinitEvtManger, PLT_EVT_enableEvtManger and
--                       PLT_EVT_disableEvtManger, Interface what clients call, Calls the sequences
--                       of calls
--   Evt/Counter         what the subscribers of the tests below keep, and the semaphores they post
--   Evt/Scenario        the test Case01 of PlatIF_EVT_UT_useGtest/UT_T1_PubSubEvt_Typical.cxx; its
--                       loop is Evt/Manager/Rounds
--   Evt/Worker          the slot that the thread reads after it has unlocked the queue
--   Evt/Busy            the rounds of the thread during whose callbacks events are posted
--   Evt/Locks           the lock of the subscription table, with pthread_cancel as documented
--   Evt/Case02          the test Case02 of PlatIF_EVT_UT_useGtest/UT_T1_PubSubEvt_Typical.cxx
--   Evt/Case03          the test Case03 of that file, whose callbacks post
--   Ioc/EvtId           the ids of PlatIF_IOC/PlatIF_IOC_EvtID.h
--   Ioc/Conles          the subscribers of the connection-less mode, __IOC_ConlesMode_subEVT and
--                       __IOC_ConlesMode_unsubEVT (PlatIF_IOC/_PlatIF_IOC_EventTest.cxx)
--   Ioc/Mailbox         the queue of one event of each of them, between __IOC_ConlesMode_postEVT and
--                       __IOC_ConlesMode_ASyncEventThread
--   Ioc/Cache           the events that a thread caches: __IOC_ConlesMode_postEVT_ASyncThreadCached
--                       and the replay at the end of __IOC_ConlesMode_ASyncEventThread
--   Ioc/Thread          the loop of that thread as steps, with what others do meanwhile
--   Ioc/Lock            the options of a post, its timeout, and how it gets the mutex
--   Ioc/Post            __IOC_ConlesMode_postEVT; Ioc/Course is how it goes on
--   Ioc/Effect          subscribing and unsubscribing seen by posts
--   Ioc/Api             PLT_IOC_subEVT, PLT_IOC_unsubEVT, PLT_IOC_postEVT and the tests inside
--                       PlatIF_IOC/_PlatIF_IOC_EventTest.cxx
--   Ioc/Scenario        the test Case01 of PlatIF_IOC_UT_useGtest/UT_T1_EventConlesMode_Typical.cxx
--   Ioc/Module          PLT_IOC_initModule and PLT_IOC_deinitModule
--                       (PlatIF_IOC/_PlatIF_IOC_ModuleTest.cxx)
--   Pec                 PLT_PEC_onlineService (PlatIF_PEC/PLT_PEC_Server.c)
--   MemStat             the tool Tools/tos-ebedmemstat.c; its loop runs on fuel, of which the number
--                       of rounds that its counter gives is enough
-- From Evt/Oper to Evt/Locks, but for Evt/Counter and Evt/Scenario, the code is
-- PlatIF_EVT/PlatIF_Event.c. The manager asks the registry about the caller, keeps
-- subscriptions in a table, and puts posted events in the queue; the thread takes them out and
-- hands them to the dispatcher, which reads the table.
--
-- How C is modelled. A function that may have undefined behaviour returns a `Run`: a value, or
-- `fault` for a dereference of NULL, an access outside an object or a remainder by zero.
-- Whether an allocation succeeds is an argument. A semaphore of a test is how often it was
-- posted. A call is one step under its lock. Counters and indices keep the wrap-around of
-- their 16, 32 and 64 bits. Loops are structural recursion on the rounds left, which the
-- code's own limits give, and only MemStat uses fuel, and Ioc/Thread a number of steps, of
-- which four are enough for a thread to exit. How many whole cells of padding follow the ids
-- of a row (`tail_cells`) is a parameter: 1 where a pointer has 8 bytes, 0 where it has 4.
--
-- A post of PlatIF_IOC goes through a table whose threads run: the model is given each
-- subscriber as the post finds it when it gets there, and a list that says for each of its
-- sleeps whether the thread it waits for took its event. The steps of Ioc/Thread interleave
-- freely, but for what the mutex of the context forbids while a thread is asked to exit.
--
-- The tests count their posts in an `int`: their theorems stop below 2^31. A thread that is told
-- to exit while the mutex of the context is held is joined where nothing is in its cache, and
-- pthread_join never returns where something is; what such a thread still takes is said to put
-- nothing there.
--
-- Not modelled: what callbacks do to the state of the manager but for posts, or to that of the
-- context but for what a thread caches, the callback's counter in the test of PlatIF_IOC,
-- pthread_create (taken to succeed, as PlatIF_EVT takes it; PlatIF_IOC aborts if it does not),
-- a row said to have 2^32 - 1 ids, the payload of an event beyond its 32 bytes, a mutex that
-- cannot be locked, but in a post; the script in Tools and the other unit tests.
pub mod Prelude
pub mod ThinkOs
pub mod Evt
pub mod Ioc
pub mod Pec
pub mod MemStat
