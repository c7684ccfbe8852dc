-- ===== src/Lib.antt =====
-- Rava runs Lua programs in fibers on libuv's event loop, and lets states exchange values as
-- strings of bytes. This library models the C code of the core and proves what its parts promise.
--
-- - Base: native numbers, Boolean tests, lists and bits. Outcome: how a call ends: a value, a Lua
--   error, undefined behaviour, a failed assertion, or a loop of the model that ran out of fuel.
-- - Buffer: `rava_buf_t` and ravaL_buf_* of src/rava_core_serialize.c; a buffer is a list of cells
--   that are written or not. Its children: Growth (ravaL_buf_need), Content (what a buffer holds),
--   Uleb and Reading (the variable-length integers).
-- - Lua: the values and the calls of LuaJIT (deps/luajit, a git submodule) as a record of
--   functions that every definition of the serializer takes: the heap, its tables, functions and
--   metatables.
-- - Serialize: encode_value, encode_table and ravaL_serialize_encode; Serialize/Decode:
--   decode_value, decode_table, find_decoder and ravaL_serialize_decode. Format has the bytes as
--   printed items; Describe says which item a value is sent as, Build what an item makes; Encodes,
--   Bodies, Follows and RoundTrip relate the code to them; Progress, Rounds and Ending bound the
--   rounds of the decoder on any bytes. Plain and Total have heaps of plain data and the rounds of
--   the encoder on them, Refs the numbers of objects, Enough the rounds of the decoder on the
--   bytes of items; Links, Copies, Copying, Filling and Isomorphic the copy that the decoder makes
--   of such data; Numbering the objects behind a hook, and Shifted those behind a decoder that
--   returns nil.
-- - Scheduler: the states, flags and queues of src/rava_core_state.c, src/rava_process_fiber.c,
--   src/rava_process_thread.c and src/rava_process_cond.c. Calls has the calls of a running fiber
--   and ravaL_thread_once; Balance, Turns and Loop its invariant; Order the order of the turns;
--   Outer the thread that a state belongs to; Runs the loop over many turns; Waking whom an event
--   wakes.
-- - MainLoop: ravaL_thread_suspend, ravaL_thread_yield and ravaL_thread_resume, the main state's
--   loop over the fibers and the callbacks of Stream; its children Suspend, which says how it
--   ends, and Dispatch, the functions of src/rava_core_state.c that choose between fibers and the
--   main state. Process: the start of a thread, sleep and title of src/rava_process.c.
-- - Threads: creation, entry and join of the OS threads of src/rava_process_thread.c, with the
--   serializer between the two Lua states. Modules: the hooks of src/rava_core.c that carry a
--   module from one Lua state to another.
-- - Setup: ravaL_module and ravaL_class of src/rava_core.c over the tables of LuaJIT as a record;
--   Names has the arrays of luaL_Reg, Opening luaopen_rava of src/rava.c and the functions that it
--   calls, Frame what they leave as it is, Opened what they leave behind (Parts, Classes and
--   Modules, by module), and Travel the way of a module between two opened states.
-- - Stream: src/rava_core_object.c and the callbacks of src/rava_core_stream.c over libuv
--   (deps/libuv, a git submodule) as a record of functions; Methods has the methods. Streams wait
--   on the conditions of the scheduler. Handles: the timers and idle handles of
--   src/rava_process_timer.c and src/rava_process_idle.c.
-- - Resolve: the hints that rava_dns_resolve of src/rava_socket.c hands to getaddrinfo; its child
--   Requests the request and its callback.
-- - Fs: src/rava_fs.c and RAVA_FS_CALL of src/rava_fs.h over libuv's requests; Calls has the
--   functions of the module, Files the methods of file objects, Flags the open modes, Requests the
--   two ways a request is made, Opening the opening of a file.
-- - Sockets: the methods and callbacks of src/rava_socket_tcp.c, src/rava_socket_udp.c and
--   src/rava_socket_pipe.c; Requests has the calls that suspend.
-- - Spawn: src/rava_process_spawn.c, the arrays of arguments and environment as lists of cells;
--   Arrays and Environment say where the writes go, Exit whom the end of a process wakes.
-- - System: src/rava_system.c. Main: the run of the interpreter in src/main.c; Signals has docall
--   and what SIGINT does to it, Start the new Lua state, and the main function of src/qmain.c.
-- - Examples: concrete runs.
--
-- The recursion of the serializer takes fuel, a number of rounds; `rounds` of an item bounds what
-- the decoder needs, and a value that is described within the fuel is encoded with it. The
-- doubling of a buffer's size has 64 rounds, which a size of 64 bits never exceeds; the integers
-- have five. Sizes are taken modulo 2 ^ 64 and uint32_t modulo 2 ^ 32; the theorems ask for
-- contents below 2 ^ 62 or 2 ^ 63 bytes.
--
-- The decoder as a whole needs at most 258 rounds and four for each byte; on plain data of a heap
-- with finitely many tables the encoder needs no more rounds than the data has bytes. The main
-- state's loop and the turns of fibers are given as lists of what happens; a list that ends too
-- early gives `stuck`, since the code's loop goes on.
--
-- Not modelled. The intrusive queues of the code are lists: a wait or a join of a fiber whose node
-- is still in a queue, because another call woke it, inserts the node twice in the code, and what
-- that does to the links has no counterpart here. A fiber's turn is the list of the calls that it
-- makes and its ending; fibers are created between turns. Control that ravaL_fiber_resume hands to
-- a fiber inside another's turn is not followed. The method rava_cond_wait, which drops the result
-- of ravaL_cond_wait, is left out. The tostring methods, the finalizers of objects that free
-- nothing, ravaL_traceback and ravaL_require are single calls of LuaJIT. libuv, LuaJIT and the
-- operating system are parameters.
pub mod Base
pub mod Outcome
pub mod Buffer
pub mod Lua
pub mod Serialize
pub mod Setup
pub mod Scheduler
pub mod Stream
pub mod Handles
pub mod MainLoop
pub mod Threads
pub mod Modules
pub mod Process
pub mod Resolve
pub mod Fs
pub mod Sockets
pub mod Spawn
pub mod System
pub mod Main
pub mod Examples
