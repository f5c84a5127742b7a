-- ===== src/Lib.antt =====
-- A verification library for the Go packages of this repository, which rebuild parts of the Go
-- standard library and of well-known packages to study them.
--
-- Xsync is the package xsync:
-- * Xsync.Map models xsync/map.go, map_load.go, map_store.go and map_delete.go. `Map` has the read
--   part, the dirty part and the count of misses, and a heap for the entries that the two parts
--   share. `load`, `store` and `load_and_delete` are Load, Store and LoadAndDelete; Delete is
--   `load_and_delete` with its result dropped. Keys and values are numbers: the code only compares
--   keys and moves values. A method runs as one goroutine runs it, so that compare-and-swap
--   succeeds, and the second look at `read` under the lock sees what the first saw.
-- * Xsync.RwMutex models xsync/rwmutex.go, an atomic access at a time (`Move`), for any number of
--   threads that interleave (`Step`, `Reach`). An int32 is its bit pattern below 2 ^ 32. The mutex
--   `w` is sync.Mutex of the Go library; the semaphores are those of the Go runtime, taken as the
--   parameter `Semaphore` of Xsync.Sema with its documented behaviour; `stand_in` there is what
--   xsync/sema.go itself has.
-- * Xsync.PoolQueue models xsync/pool_queue.go, the ring with two 32-bit indexes in one uint64;
--   Xsync.PoolChain models xsync/pool_chain.go, a chain of rings that uses the operations of the
--   ring; Xsync.Pool models xsync/pool.go and pool_cleanup.go, which uses the chain. The number of
--   the processor and GOMAXPROCS are arguments. In all three a method runs as one goroutine runs
--   it. The loops are structural: over the list of rings, or over the number of processors.
-- * Xsync.WaitGroup models xsync/waitgroup.go, an atomic access at a time, over the same semaphore;
--   `MayAdd` is the use of Add that its comment asks for, with a counter below 2 ^ 31. A thread may
--   take away what it owes, and `units` says who owes what at first.
-- * Xsync.Once models xsync/once.go and Xsync.Cond models xsync/cond.go, as steps of goroutines. The
--   notify list of a Cond is the Go runtime's, the parameter `NotifyList` with its documented
--   behaviour. The counts of calls and of broadcasts are not in the code.
--
-- Xbufio is the package xbufio:
-- * Xbufio.Writer models xbufio/bufio_writer.go: `write`, with the loop of Write as `write_loop`,
--   `flush`, and `new_writer_size`. The io.Writer below is the parameter `io`, with what package io
--   documents of Write (`IsDocumented`, in Xbufio.Writer.Flush). The loop runs on a fuel of three
--   rounds: the first round without an error leaves the buffer empty, the second leaves nothing to
--   write, and the third finds the loop at its end. NewWriterSize on a Writer is `new_on_writer`, in
--   Xbufio.Writer.Nested.
-- * Xbufio.Reader models xbufio/bufio_reader.go: `read`, with its parts `read_empty`, `read_direct`,
--   `read_fill` and `read_copy`, and `new_reader_size`. The io.Reader below is the parameter `io`, with
--   what package io documents of Read (`IsDocumented`, in Xbufio.Reader.Gave). A count is the number
--   of bytes given, so that the panic on a negative one is left out. NewReaderSize on a Reader is
--   `new_on_reader`, in Xbufio.Reader.Nested.
--
-- Xstrconv is the package xstrconv:
-- * Xstrconv.Itoa models xstrconv/itoa.go: `itoa`, `format_int` and `format_bits`. An int64 is its bit
--   pattern below 2 ^ 64, and a text is the list of its bytes. `pairs_loop` runs on a fuel of ten
--   rounds: each divides by 100, and 2 ^ 64 is below 100 ^ 10.
-- * Xstrconv.Atoi models xstrconv/atoi.go for a 64-bit machine: `atoi`, with its fast path `atoi_fast`
--   and the loop `atoi_loop` over the bytes.
--
-- Xstrings is the package xstrings: Xstrings.Builder models xstrings/builder.go and Xstrings.Join models
-- xstrings/join.go, which uses the builder. A slice of bytes is the list of its bytes and its capacity.
--
-- Xfasthttp is the package xfasthttp:
-- * Xfasthttp.WorkerPool models the methods of xfasthttp/workerpool.go under the lock: `get_ch`,
--   `release`, `clean`, `stop`, and the end of workerFunc, `leave`. The binary search of clean,
--   `search_loop`, runs on a fuel of one more than the number of workers that are ready: each round but
--   the last makes the interval smaller.
-- * Xfasthttp.Server models xfasthttp/server.go as a system of goroutines: the acceptor of Serve, the
--   goroutine of Start that calls clean, and a goroutine for each worker, which uses the methods of the
--   pool. `Step` is a critical section, a channel operation or an atomic access of one of them. The
--   listener and the clock come from outside: a step may accept a connection or get an error, and may
--   read any time.
--
-- Xgin is the package xgin:
-- * Xgin.Chain models Next of xgin/context.go: `next_loop` and `run_handler` call each other. A handler is
--   code from outside, a list of calls of Next and of actions, whose effect is the parameter `perform`.
--   A call of Next may not end, since `index` wraps, so that it runs on fuel, and the theorems give the
--   fuel that is enough.
-- * Xgin.ResponseWriter models xgin/response_writer.go over a http.ResponseWriter from outside, the
--   parameter `answer`; Hijack goes up to the call below.
-- * Xgin.Engine models the routes of xgin/routergroup.go, tree.go and util.go and the requests of
--   xgin/gin.go; it uses the other two. `path.Join` is the parameter `path_join`. The nodes are each
--   reached through one tree, so that an assignment to a node changes the list of trees. Set and Get of
--   a context are in Xgin.Engine.Keys.
--
-- Netpoll is the package netpoll:
-- * Netpoll.Wait models poll_runtime_pollWait, netpollblock and netpollunblock of netpoll/netpoll3.go,
--   an access at a time: one goroutine that waits on one semaphore of one descriptor, and any number of
--   threads that unblock it. netpollblockcommit of the Go runtime is the parameter `commit`. The
--   counts `posted` and `taken` are not in the code.
-- * Netpoll.Cache models pollCache of netpoll/netpoll0.go, and poll_runtime_pollOpen of netpoll2.go.
-- * Netpoll.Epoll models `netpoll` and `netpollBreak` of netpoll/netpoll_epoll.go, with netpollready, as
--   one thread runs them. The answers of the kernel come from outside as lists, so that the loops are
--   structural: a list that ends is a call that still waits.
--
-- Xlog models xlog/log.go over a writer from outside, with the time as the numbers that Date and Clock
-- give. `itoa_loop` runs on a fuel of 21 rounds: its array holds 20 digits. Xfmt models xfmt/print.go as
-- steps of goroutines that share the pool of printers; the lists of the arguments of the calls and
-- of the writes are not in the code. Xrand models xrand/shuffle.go over a source of random numbers
-- from outside; `drawn` in Xrand.Every is a source that gives the numbers of a list.
--
-- Xsync1.ErrGroup models xsync1/errgroup.go: goroutines that run tasks, and that wait for them.
-- sync.WaitGroup and sync.Once are the Go library's: a counter, and a call that is made once. The list of
-- errors in the order in which they came is not in the code.
--
-- Xsync1.SingleFlight models xsync1/singleflight.go: the callers of `Do` on one group, which interleave
-- (`Step`, `Reach`). `runs`, which counts the calls of the function, and `leader` are not in the code.
-- sync.Mutex and sync.WaitGroup are the Go library's: a critical section is one step, and a wait ends when
-- the counter is zero.
--
-- The other modules are helpers: Prelude passes library names on, GoMap is the association list
-- that stands for a Go map, and Threads sums over the threads of a system.
--
-- Not modelled: the memory padding of the pool, which has no meaning here; the texts of errors in
-- xstrconv/atoi_err.go; the configuration of xfasthttp.Server and of xgin.Engine, which the code does not
-- use; what opens sockets; netpollinit and netpollGenericInit, which set up the descriptor of epoll and
-- its pipe (netpoll/netpoll4.go is a comment); the markers against copies; and main.go, an example.
pub mod Prelude
pub mod GoMap
pub mod Threads
pub mod Xsync
pub mod Xbufio
pub mod Xlog
pub mod Xrand
pub mod Xfmt
pub mod Xstrconv
pub mod Xstrings
pub mod Xfasthttp
pub mod Xgin
pub mod Xsync1
pub mod Netpoll
