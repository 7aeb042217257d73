-- ===== src/Lib.antt =====
-- Verification of the program's own logic in this repository of C++ services and exercises.
--
-- The parts that are modelled, and the files that model them:
--   * Split.antt: `split_new_v1` of example/brpc/util/split_str.h, a template that cuts a line at
--     delimiter bytes and converts the pieces. The two string searches, the branches for numbers,
--     for strings and for other types, and the exceptions are definitions of that file.
--     Split/Reference.antt is an independent description of the pieces.
--   * FileDict.antt and FileDict/Map.antt: `CommonFileDict` of
--     example/brpc/plugins/dict/common_file_dict.h and `OfferBidRatio` of
--     example/brpc/plugins/dict/offer_bid_ratio.{h,cpp}. Both read a file line by line, split each
--     line with `split_new_v1` at tabs, and store the first two columns in a hash map.
--   * DictManager.antt: `DictManager` of example/brpc/plugins/dict/dict_manager.{h,cpp} over the
--     virtual functions of example/brpc/plugins/dict/dict_base.h. `register_dict`,
--     `parallel_sync_load`, `load_dict_by_thread`, `run` and the rounds of `check` keep their names;
--     the body of the loop of `check` is `check_one`. The function of a thread of the load has a
--     return type and no `return` behind the load, and a thread that comes there is undefined
--     (`flows_off`). DictManager/Files.antt puts the file
--     dictionaries behind that interface, DictManager/Readers.antt has the two steps of `GET_DICT`,
--     DictManager/Initialize.antt is `initialize`, and DictManager/Registered.antt has the two
--     dictionaries of example/brpc/common/dicts.cpp.
--   * LockFreeQueue.antt: `LockFreeQueue` of example/performance_units/lock_free_queue.cpp. Each
--     memory access of `input` and `output` is a step, and a schedule interleaves the threads.
--     LockFreeQueue/Atomic.antt is the abstract queue, in which an operation takes effect at once.
--   * MySharedPtr.antt: `MySharedPtr` of example/performance_units/my_shared_ptr.cpp over a heap of
--     objects and counts. A program is a list of declarations, assignments and ends of scope, and
--     undefined behaviour is a result.
--   * Ranker.antt: the processors of example/brpc/processor/ and the data of
--     example/brpc/common/common.h. A processor is a function of what it depends on, `fire` runs a
--     vertex of the graph where its dependencies are there, and a run is any list of vertices.
--     Ranker/Graph.antt writes out the values that a run leaves.
--   * ClassTemplate.antt: the other `CommonFileDict`, of example/googletest/class_template.{h,cpp},
--     with its specialisations, which have `insert` and `add` only; `Change` is a call of `insert` or `add`.
--   * Flow.antt: what the programs under example/babylon/ ask of the graph library: a graph is a list
--     of vertices, and `Settles` says what a run leaves in the data. Flow/Start.antt,
--     Flow/Choice.antt, Flow/Same.antt and Flow/Conditions.antt are graph_start.cpp,
--     graph_condition.cpp, dependency/depend_same.cpp and dependency/depend_condition.cpp.
--   * DesignModel.antt: example/design_model/, where an object is the record of its virtual
--     functions, and a function that prints answers its lines: abstract_factory, simple_factory,
--     strategy, factory_method and template_method.
--   * StructPb.antt: example/performance_units/struct_pb/example.cpp. StructPb/Messages.antt has the
--     functions on messages, and StructPb/Loop.antt `run_loop` and `main`, with what the flag `mode`
--     is each time that it is read.
--   * Executor.antt: `BthreadGraphExecutor` of example/babylon/bthread_graph_executor.cpp, of which
--     example/brpc/plugins/framework/ has a copy: calls, failed starts and threads in any order.
--   * Engine.antt: `GraphEngine` of example/brpc/plugins/framework/graph_engine.cpp.
--     Engine/Service.antt has `init` of example/brpc/common/global.h, which runs the dictionary
--     manager first, and `main` of example/brpc/brpc_server.cpp.
--   * FreeLockQueue.antt: `FreeLockQueue` of example/protobuf/free_lock_queue.h, which deletes the
--     nodes that it takes. Two calls share it, in the turns of a list.
--   * Cassandra.antt: example/cassandra_driver/main.cpp: `on_auth_initial` as writes into an array,
--     and `main` as the list of what it does with the objects of the driver. Cassandra/Rows.antt is
--     example/brpc/cassandra_test.cpp.
--   * Exercises.antt: `Factorial` of example/boost/function_test.cpp, and of example/googletest/base.h
--     the operators of `TestData` and the thread-local counter of `increase`.
--     Exercises/Templates.antt has the function templates of func_template.h and two functions of
--     myfuture.cpp.
--   * UnitTest.antt: `UnitTestClass` of example/googletest/test_class.h with the functions on it: a
--     scope is a list of statements, and the objects print what is made, copied and destroyed.
--   * CacheLine.antt: example/performance_units/debug_cache_line.cpp, two threads on two counters.
--     ProtobufMain.antt is example/protobuf/main.cpp, whose two threads add to one sum.
--   * BoundedQueue.antt: example/babylon/concurrent/bounded_queue_main.cpp over the library's queue.
--   * Client.antt: example/brpc/brpc_client.cpp, with the channel and the call as parameters.
--   * BoostGraph.antt: the output of the graphs in example/boost/my_graph_test.h and graph_test.cpp.
--   * Prelude.antt: the names, tests and lemmas that all of them share.
--
-- How state is modelled. A byte is a number and a string a list of bytes. A hash map is an
-- association list. A load is a function of the bytes of the file and of the map before it, and
-- its result says whether it ended, threw, or ran out of fuel. An exception that nothing on the
-- thread catches ends the process, and `none` stands for that, as it does for undefined behaviour
-- such as a null pointer that is followed. An index or a time is a number.
--
-- Fuel. `split_new_v1` has one round more than the line has bytes, and `load` two rounds more than
-- the file has bytes: each round takes a byte or ends the loop. The one loop that needs more is
-- the `continue` after `std::invalid_argument`, which does not move on, and a model that has run
-- out says so (`running`, `unfinished`). `factorial` has one round more than its argument. The
-- queues have no fuel: a schedule is a list. The other loops run over a list or count down.
--
-- Parameters. `boost::lexical_cast`, the conversion of a double to `int64_t`, the file system, the
-- clock, the start of a thread, and the order in which a thread and its starter write `args.ret`
-- are arguments, and so are the type `double` with its product and the expression that the graph
-- library evaluates for `IsSkipPreRank`. So are the files of the configuration, the replies of a
-- database, of a call over the network, and the order in which the graph library runs the vertices.
-- The pool of graphs, the bounded queue, the graphs of boost and the generated message classes are
-- records of operations with the laws that their documentation gives, and `Settles` is the contract
-- for the run of a graph. The memory of the queues is sequentially consistent, and `new` does not
-- fail.
--
-- Not modelled: logging; `get_dict_info`, whose body is empty; `SayHello` of
-- example/brpc/service/ranker_service.cpp, which runs the graph that the graph library has built of
-- the configuration; calls of `try_get` that overlap; most main functions that only demonstrate; the exercises
-- that print what a library does (futures, sorting, the graph with properties); the files that do
-- not compile (example/design_model/facade/, example/performance_units/virtual_alignas_test.cpp);
-- example/design_model/command/ and single/, which implement nothing; libraries and copies of
-- libraries.
pub mod Prelude
pub mod Split
pub mod FileDict
pub mod DictManager
pub mod LockFreeQueue
pub mod MySharedPtr
pub mod Ranker
pub mod ClassTemplate
pub mod Flow
pub mod DesignModel
pub mod StructPb
pub mod Executor
pub mod Engine
pub mod Cassandra
pub mod FreeLockQueue
pub mod Exercises
pub mod CacheLine
pub mod BoundedQueue
pub mod Client
pub mod UnitTest
pub mod ProtobufMain
pub mod BoostGraph
