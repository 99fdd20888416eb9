-- ===== src/Examples.antt =====
-- The short programs of op_systems: pipe.cpp, pipeF.cpp, fifo1.cpp, popen.c, exec.cpp and
-- threads/thread.c.
pub mod Pipes
pub mod Threads
mod Tests
