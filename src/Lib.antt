-- ===== src/Lib.antt =====
-- rmw_hazcat, the ROS 2 middleware wrapper for the Hazcat zero-copy library.
--
-- The program is a set of C functions, the rmw interface, with little state of its own: a static
-- counter for gids and the handles that its callers hold. A process initialises a context
-- (src/rmw_init.c), creates nodes in it (src/rmw_node.c), and in these publishers
-- (src/rmw_publisher.c), subscriptions (src/rmw_subscription.c), services (src/rmw_service.c) and
-- clients (src/rmw_client.c). A message goes from `rmw_publish` through a slot of the publisher's
-- allocator and the topic's queue in shared memory to `rmw_take`; both ends may also hold the slot
-- itself, as a loan. `rmw_wait` (src/rmw_wait.c) sleeps in epoll until a subscription or a guard
-- condition (src/rmw_guard_condition.c) has something. Slots, queues and registration belong to the
-- hazcat library, which is not in this repository.
--
-- How it is modelled. Every function of the source is a function of the same name from an
-- environment (`Env`), its arguments and a `World` to an `Outcome`: what it returns and writes
-- through its pointers, with the next world, or `fault` where it would read through NULL, or read
-- or write beyond an array or a buffer. A world is the history of all calls that left the repository, newest first, each with
-- the answer that it got, and the gid counter. The environment gives the answer to each such call
-- as a function of the history, so that hazcat, rmw, rcutils, the heap, epoll and the pipes are
-- parameters: nothing is assumed of them but what a theorem names. `Channel.Hazcat` names what the
-- code relies on in the queue of one reader, for endpoints that share one memory domain, as
-- src/test/hazcat_message_queue_test.cpp shows it. The queue is empty when the reader is registered
-- and holds as many messages as its depth: one more takes the place of the oldest. A take hands out
-- the oldest entry or, of an empty queue, NULL; a fresh slot is not NULL and in no entry that waits;
-- and a slot gives back the bytes last written to it. `Wait.Result.IsEpoll` names what `epoll_wait`
-- answers at most. Inside a function, `Body` chains the statements, with a branch for `return`.
--
-- A message to be serialized is its memory, a list of bytes, and fields are read and written by
-- offset: a read or write beyond it is a fault. microcdr is a parameter of its own (`Ucdr`), and
-- `IsBounded`, `ReadsBack` and `Resizes` name what theorems rely on: a read stores no more than was
-- asked for; what was written, if all of it found room, is read back in the same order; a resize
-- gives the size that was asked for.
--
-- Where the code reads a pointer that a check may find NULL, the argument is an Option; an address
-- that is only passed on is a number, with 0 for NULL. Handles carry their own address, which is
-- what the code frees. Strings and buffers are lists of bytes. Integers are natural numbers with
-- the wrap-around of the source written out: the gid counter and the milliseconds of a timeout
-- modulo 2^64, the latter cut to an int; `buffer_length` modulo 2^64 too. Machines are 64-bit and
-- little-endian. Loops are structural recursion on the arrays and counts that bound them, so that
-- no fuel is needed and every function is total.
--
-- The files:
--   Base              shared names, Boolean tests on numbers, lists measured by native numbers
--   Platform          the structs of rmw and hazcat, the calls and the environment, the chain of
--                     statements, and the calls of other libraries (Types, Trace, Control, Calls)
--   Gid               `generate_gid` of src/rmw_publisher.c, src/rmw_compare_guids_equal.c
--   Typesupport       src/hazcat_typesupport.cpp, `rmw_get_serialized_message_size` of
--                     src/rmw_serialize.c
--   Publisher         src/rmw_publisher.c (Create, Send)
--   Subscription      src/rmw_subscription.c (Create, Receive, Sequence)
--   Serialization     src/rmw_serialize.c (Codec, Write, Read), src/rmw_get_serialization_format.c;
--                     Layout is the flat list of a table's fields, Writes, Reads, RoundTrip and
--                     Messages are about the functions
--   Context           src/rmw_init.c; Lifecycle, Transitions and Copies are about its functions
--   Wait              src/rmw_wait.c (Epoll: its loops; Sets, Timeout); Loops, Result and
--                     Cleanup are about them
--   Handles           src/rmw_node.c, src/rmw_guard_condition.c, src/rmw_service.c,
--                     src/rmw_client.c, src/rmw_event.c, and wait sets as handles; Blocks, Attempts
--                     and Foreign are about them
--   Queries           src/rmw_count.c, src/rmw_node_info_and_types.c, and the queries of
--                     publishers, subscriptions and nodes (Graph, Info); Created and
--                     Unsupported are about them
--   Channel           what a topic promises: the queue of one reader, read off a history; Send,
--                     Receive, Exchange, Delivery, Rounds, Sequence and Arrival are about the
--                     functions on it, Created about endpoints from their creation on
--   Memory            the heap blocks and slots that come and go, read off a history; Ledger is the
--                     loans that a process holds over a sequence of calls, which Sends, Takes and
--                     Conservation are about
--   Stubs             the functions of all these files that are not implemented in the source
--   Simulation, Tests a concrete environment, and the theorems at concrete inputs
--
-- Not modelled: the cuInit call of a CUDA build, and the arguments that the source ignores.
-- src/hazcat_ros_graph.c is empty. In `rmw_take_sequence` the loop counter is an int, which the
-- model takes to reach `count`. A table of a nested message is never NULL. Concurrent calls are not
-- modelled: one function runs at a time, in any order (Context.Lifecycle, Channel.Exchange,
-- Memory.Ledger), and what other processes do shows in the answers of the environment.
pub mod Base
pub mod Platform
pub mod Gid
pub mod Typesupport
pub mod Publisher
pub mod Subscription
pub mod Context
pub mod Wait
pub mod Handles
pub mod Queries
pub mod Channel
pub mod Memory
pub mod Stubs
pub mod Serialization
mod Simulation
mod Tests
