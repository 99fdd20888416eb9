-- ===== src/Lib.antt =====
-- Programs of an operating systems course, in op_systems: servers, shells and small tools around the
-- system calls of Linux. Each is a program of its own; they share the C library and the kernel. The
-- server and the client of file_transfer talk to each other (FileTransfer.Delivery), and so do the
-- shell server and the shell client of shellInterpreter (ShellClient.Session), server.c and client.c
-- (Messages.Delivery), and the two sides of remoteShell (RemoteShell.Typed).
--
-- Prelude: names of the libraries, Boolean tests on the native numbers, lists over them, and the `int`
-- that a system call returns.
-- Libc: string.h on buffers (`c_str` is the string that starts at a buffer's first byte), `strtok`,
-- `atoi` and `sprintf`.
-- Sys: the operating system. A program is a function on a world: the list of the kernel's answers that
-- are still to come, and the log of the calls made so far. Every statement about all answers is one
-- about all behaviours of the kernel, of the peers and of the other processes. A run returns, or stops
-- by `exit`, `pthread_exit` or `execvp`, in undefined behaviour (`crashes`), waiting for the kernel, or
-- still in a loop after all its rounds (`runs_on`). Sys.Loop has the loops and the rules for them,
-- Sys.Log what a log shows, Sys.Progress the rule that a loop that waits in every round needs no more
-- rounds than there are answers, Sys.Pieces the rule for the loops that read one message after the
-- other, Sys.Lines what `fgets` leaves, Sys.Places the arrays of threads, Sys.Keeps the rules for what
-- holds of every call of a run, and Sys.Stream the stream between two processes, as an interface.
-- Argv: the loop that splits a command into the array for `execvp`.
-- FileTransfer: op_systems/file_transfer. `Server.main` is the server with `serve_client` for a round
-- of its outer loop and `session_round` for one of its inner loop; `Client.main` is the client with
-- `exchange_round` and `send_file`.
-- Interpreter: op_systems/shellInterpreter/interpreter.cpp. `handle_command`, `handle_command_read`,
-- `interpret` and `main` have the names of the source; what a child does behind `fork` is the case in
-- which `fork` answers 0.
-- Calculator: op_systems/zk1/server.cpp. `handle_client` is the thread of one client, `start` the
-- accepting loop; Clients has the semaphore and the counters of all threads as steps of the server.
-- Chat: op_systems/telnet_com/server.cpp. A thread's `handle_client` is given what the structure that
-- the threads share holds at each message.
-- Cnt and Cat: op_systems/cv1/cnt2.cpp and op_systems/cv1/cat2.cpp.
-- Messages: op_systems/server.c and op_systems/client.c. Listing: op_systems/ls2.cpp,
-- on a directory as a list of entries, and in Listing.Directory as one without an order.
-- ShellServer: op_systems/shellInterpreter/server.cpp and remoteShell.cpp.
-- RemoteShell: op_systems/remoteShell. `Server` is server.cpp with the classes of server.h and main.cpp:
-- `handle_shell_client` is the thread of a client, `accept_client` a round of `RemoteShellServer::run`;
-- `Client` is client_side/client.cpp.
-- Web: op_systems/webServer.cpp. `handle_request` is one request with both sides of its fork,
-- `handle_client` the thread of a client, `start_server` the accepting loop.
-- ShellClient: op_systems/shellInterpreter/ShellClient/client.cpp. PopenShell:
-- op_systems/remote_shell/server.cpp and server.h, where `handle_shell` is one command.
-- Examples: pipe.cpp, pipeF.cpp, fifo1.cpp, popen.c, exec.cpp and threads/thread.c of op_systems.
-- Graphics: op_systems/start.cpp; Graphics.Window: op_systems/shellInterpreter/opengl.cpp and
-- op_systems/openGL1.cpp. A call of the graphics libraries is one of Graphics.Calls, and what the
-- libraries return is an answer; Graphics.Phases has the order of calls that they ask for. A `float` is
-- its bit pattern.
--
-- State: a local buffer is the list of its bytes, with what the stack held before as an argument
-- (`stack`, `stale`); a store outside it is `crashes`. A descriptor is the number the kernel gave. An
-- `int` that is computed is its 32-bit pattern. A product that overflows is `crashes` (Calculator); the
-- counts of Cnt, which C leaves undefined behind 2 ^ 31, have the wrap-around written out.
-- Fuel: a loop over the kernel's answers has rounds as an argument, and the theorems ask for more
-- rounds than there are answers or pieces of the input. A loop over a string takes a byte in every
-- round and has as many rounds as the string has bytes, and one more.
-- Parameters: everything the kernel does is an answer. The C library's functions are defined here as
-- far as they compute on strings, for the C locale and the calls that the programs make. In Web the
-- `sprintf` that formats an array into itself is an argument, `formatted`; a stream socket is an
-- argument with the laws of Sys.Stream, which `full_reads` fills.
--
-- Not modelled: what the graphics libraries draw, and their generated loader shellInterpreter/glad.c;
-- study1/study1.cpp, which does not compile; remote_shell/client.cpp, which is empty.
mod Prelude
pub mod Argv
pub mod Libc
pub mod Sys
pub mod FileTransfer
pub mod Interpreter
pub mod Calculator
pub mod Cnt
pub mod Chat
pub mod Cat
pub mod Messages
pub mod Listing
pub mod ShellServer
pub mod RemoteShell
pub mod Web
pub mod ShellClient
pub mod PopenShell
pub mod Examples
pub mod Graphics
