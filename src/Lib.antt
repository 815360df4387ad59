-- ===== src/Lib.antt =====
-- FlashStack keeps return addresses on shadow stacks. An assembler driver, FlashStack/afl-as.c,
-- rewrites the assembly that a compiler emits: it prints a prologue behind `.cfi_startproc`, an
-- epilogue in place of `ret`, and, if asked to, code around calls. FlashStack/spa.h selects one
-- scheme at compile time. For the scheme USE_SPA_GS_RSP the library FlashStack/gs.rsp.c gives every
-- thread a shadow stack, puts its distance to the call stack into the gs register, and moves it to
-- a random place from time to time. The library FlashStack/fsgs.c of USE_SPA_FS_GS_TLS does the
-- same with the metadata on a page of its own. For the buddy schemes the shadow stack
-- lies beside the call stack, and a random number is added to every address on it from time to
-- time. A compiler is called through the drivers FlashStack/afl-gcc.c and FlashStack/afl-rustc.c.
--
-- Base: what the modules share. Bytes are numbers, texts are lists of bytes.
-- Asm: the instructions that afl-as.c prints, and a machine that runs them on 64-bit words. Memory
-- is addressed by words: two accesses meet if their addresses are equal.
-- Scheme: function_entry and function_exit are what add_instrumentation prints at `.cfi_startproc`
-- and for `ret`, for each scheme of FlashStack/spa.h; Scheme/Calls has the code for calls, with
-- SPA_PROTECTED_FUNC_MAGIC_NUM and SPA_LENGTH_OF_PROTECTED_PROLOGUE.
-- Names: is_target_func and its callers, is_protected_function and spa_open_protected_funcs_list of
-- FlashStack/afl-as.c. libc_names and libcxx_names are arguments: no theorem depends on what they
-- hold. The binary search runs on fuel, one more than the length of the table, and is shown to end
-- within it.
-- Instrument: add_instrumentation, with its local variables as a record and the parts of its loop
-- in the order of the source. A line comes with the number that random() gives for it. What is
-- printed for the user, and opening and closing files, is left out.
-- Command: edit_params and spa_is_rustc_pass_thru of FlashStack/afl-as.c, which make the options that
-- Instrument takes as given.
-- Runtime: FlashStack/gs.rsp.c. get_memory_at_random is Runtime/Obtain, init_shadow_stack
-- Runtime/Prepare, gs_rsp_runtime_rerandomize Runtime/Rerandomize, and the table of ended threads
-- Runtime/Regions. The variables of the library are a record, memory is a function with a test of
-- what is mapped, and touching what is not mapped is a fault. mmap, munmap, mremap, arch_prctl,
-- rdtsc and rdrand are the record System; Runtime/Promises says what their manual pages promise,
-- and Tests/Linux has a system that keeps it. The loop of get_memory_at_random needs no fuel, for
-- it counts its attempts; that of do_init_shadow_stack, which runs until memory is to be had, runs
-- on fuel, and its theorem says for which fuel it succeeds. Each function runs as a whole; the
-- functions that share the table hold a mutex.
-- Buddy: the runtime library of the buddy schemes, FlashStack/buddy_tls.c, FlashStack/simd_rand.c
-- and FlashStack/init.c. Buddy has the memory, the macros of FlashStack/spa.h and avx2_64_x_4_add,
-- Buddy/Randomize au_edu_unsw_randomize, and Buddy/Setup the preparation of a thread; Buddy/Bound
-- has buddy_get_stack_bound, whose call is compiled out. A page can be read, or written too; a
-- store to a page that cannot be written is a fault. mprotect is a parameter, and Buddy/Promises
-- says what is relied on. The loop runs on fuel, one more than the end of its range, and is shown
-- to end within it. Buddy/During joins this with the prologue and the epilogue of Scheme. The
-- layout is shown for the default size of the call stack.
-- Fsgs: FlashStack/fsgs.c, the runtime library of USE_SPA_FS_GS_TLS: fsgs_runtime_rerandomize as a
-- whole, get_memory_at_random, and in Fsgs/Setup the preparation of a thread, for which the bounds
-- of the call stack are an argument, and in Fsgs/Regions the table of ended threads. Fsgs/During
-- joins the moves with the prologue and the epilogue of Scheme. The system is the record Os.
-- Fsgs/Promises says what its manual pages promise, and, in Serves and Spacious, what is asked of it
-- for a move to succeed. The loop of get_memory_at_random has no bound in the source and runs on
-- fuel: seven rounds are enough where there is room. SPA_ENABLE_GS_MSR, which the source leaves
-- undefined, is an argument of type Bool. With it the loop of Buddy changes the values: Fsgs/Values,
-- Fsgs/Renewed and Fsgs/Decoded are about the library, Fsgs/Changing and Fsgs/Returned join it with
-- Scheme. There the stack pointer of the preparation is called `entry`.
-- Driver: FlashStack/afl-gcc.c and FlashStack/afl-rustc.c: find_as, edit_params (Driver/Arguments and
-- Driver/Compile) and main up to execvp. The files that can be executed are a parameter.
-- Threads: pthread_create and do_start_routine of FlashStack/gs.rsp.c, FlashStack/fsgs.c,
-- FlashStack/init.c and FlashStack/fork.c. The real pthread_create and malloc are the record Supplied.
-- The objects through which the arguments go are a list with their addresses; what other threads
-- do in between is a relation, Meanwhile.
-- Hooks: FlashStack/rt_lib.c, the functions of the C library that are hooked, with
-- DO_RANDOMIZATION of the buddy schemes.
-- Main: main of FlashStack/afl-as.c, which joins Command and Instrument.
-- Tests: the theorems at concrete arguments.
--
-- Not modelled: the variables that the drivers of the compilers set in the environment of the
-- child; srandom, and setenv in the constructor of FlashStack/init.c; the counters for gdb;
-- FlashStack/util.c, of which nothing is used; the headers copied from AFL, the files copied from
-- Firefox, the scripts and the lists of names.
mod Base
pub mod Asm
pub mod Scheme
pub mod Names
pub mod Instrument
pub mod Command
pub mod Runtime
pub mod Buddy
pub mod Driver
pub mod Fsgs
pub mod Threads
pub mod Hooks
pub mod Main
mod Tests
