-- ===== src/Examples/Threads.antt =====
-- op_systems/threads/thread.c.
use osy_materials.Prelude.{ℕ, minus_one}
use osy_materials.Sys.{
  print, sleep, pthread_create, pthread_join, Sys, ◌>>=◌, ◌>>◌, pure, act, ask, exit_success,
}

-- A thread.
unfoldable pub routine : Sys (Unit {0})
routine = do act (print "Test from1\n"); act (sleep 3); act (print "Test2\n")

-- The results of the calls are dropped. The threads have no argument.
unfoldable pub threads_main : Sys ℕ
threads_main = do
  r₁ ← ask (pthread_create 0 minus_one)
  r₂ ← ask (pthread_create 1 minus_one)
  j₁ ← ask (pthread_join 0)
  j₂ ← ask (pthread_join 1)
  pure exit_success
