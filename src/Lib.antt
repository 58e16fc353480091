-- ===== src/Lib.antt =====
-- A verification library for DINAMITE, an LLVM pass that inserts logging calls into C and C++ programs.
--
-- The program. The pass (access_instrument.cpp) goes through the functions of a module. It asks a
-- filter (InstrumentationFilter.cpp) which files, functions, arguments and events to instrument; the
-- filter decides by patterns, by lists in a JSON file and by the size of a function (Util.cpp). The calls
-- go to functions of a run-time library that LogFunctionManager.cpp declares and selects. Names of sources,
-- types, variables and functions become integers (IdMap.hpp) that the compilations of a build share by
-- files; names of fields come from the debug metadata (MetadataCrawler.cpp), and the functions that
-- allocate memory from alloc.in (AllocDefs.cpp). The instrumented program is linked with one of three
-- run-time libraries (library/), whose functions the calls name: one writes a binary trace for each
-- thread, one writes lines into one file, and one does nothing.
--
-- The files.
--   Shared       lists, byte strings, ordered maps (std::map) and sets (std::set<int>), 32-bit integers,
--                decimal text, and the ways a call can end.
--   Json         the calls of json11, another project's library: a record of operations. ReadsBack says
--                that a dumped map of integers is read back with its entries.
--   Environment  files by path, environment variables, and the directory of the maps.
--   Glob         InstrumentationFilter::globMatch as glob_match, and Matches, what a pattern means.
--   Filter       InstrumentationFilter: the record with its fields, one function for each method.
--   Cfg          Util.cpp: explorePath as explore_path, longestPathSize, getFunctionLOCSize.
--   IdMap        IdMap.hpp. A method under a file lock is one function from the files to the files;
--                IdMap.World has the steps of processes that run at the same time.
--   AllocDefs    AllocDefs.cpp, with the reads of the standard library in AllocDefs.Stream.
--   LogFunctions LogFunctionManager.cpp; the calls of LLVM are the record Functions.
--   Metadata     MetadataCrawler.cpp; a node is its index among the nodes of the module, and the walk
--                goes over the operands that LLVM gives.
--   Pass         access_instrument.cpp: the functions as lists of items, the program's instructions and
--                what the pass adds, with instrument_function for the work on one function and
--                run_on_functions for the loop of runOnModule (Pass.Whole); run_pass of Pass.Started is
--                runOnModule with the loads before the loop and without the saves behind it. Where
--                getLogFunction exits, the items have a mark, at which run_on_functions exits.
--                Pass.Names has the names of variables, Pass.Calls the ids and places that the inserted
--                calls pass.
--   Runtime      library/: the clock, the records of the trace (Records), and binaryinstrumentation.c by
--                ids of threads (Excluded, Threads), buffers and files (Buffers) and functions (Binary);
--                Calls has runs of calls. TextLog is textinstrumentation.c, NoLog nullinstrumentation.c.
--                The state of the binary library is the record Runtime: the values of the thread-local
--                key, next_id, a slot for each index of out, entries and current, and the files by name.
--   Tests        runs on concrete inputs, with a small library in the place of json11.
--
-- The interfaces. Json11 and Functions are records that the modules take as parameters; Pass uses
-- Filter, Cfg, AllocDefs, LogFunctions and Metadata; the types of values are a parameter of it.
--
-- Integers. An int is a signed number with its 32-bit wrap-around written out (wrap32), a size_t is taken
-- modulo 2^64 (to_size). An IdMap's ids stay in range where HasRoom holds, the bound on the chunks.
--
-- Fuel. explore_path and traverse_metadata recurse on fuel, one more than there are blocks or nodes: each
-- call goes one deeper and visits one more. find_open_chunk has one round for each chunk of the
-- pool and one to see the end.
--
-- Not modelled. json11.cpp, another project's library; the tests and scripts; diagnostic output;
-- FileLocker, whose locks make each locked method one step (the constructor of IdMap, which takes the
-- lock twice, can have read any files before its step); in the pass, the casts, and the order in which
-- its loop asks the maps for ids: Pass.Calls has what each call asks and passes, and save_maps the
-- saves behind the loop. In the run-time library, a call is one step, which other threads do not
-- interrupt, fwrite writes all that it is given, and a file counts as holding what its stream was
-- given, which stdio guarantees only from fclose on; what the system answers comes with each call.
pub mod Shared
pub mod Json
pub mod Glob
pub mod Environment
pub mod Filter
pub mod Cfg
pub mod IdMap
pub mod AllocDefs
pub mod LogFunctions
pub mod Metadata
pub mod Pass
pub mod Runtime
pub mod Tests
