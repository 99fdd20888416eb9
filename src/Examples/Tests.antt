-- ===== src/Examples/Tests.antt =====
-- Runs of the short programs, and their theorems at concrete inputs.
use osy_materials.Prelude.{◌≡◌, refl, [], ◌∷◌}
use osy_materials.Libc.Strings.{codes}
use osy_materials.Sys.{fail, gives, returns, stops, exits, execs, exit_success, exit_failure, start}
use osy_materials.Examples.Pipes.{pipe_main, fifo_main, exec_main}
use osy_materials.Examples.Threads.{threads_main}

-- The FIFO cannot be made, in pipe.cpp and in fifo1.cpp.
pipe_test : (pipe_main (start (fail ∷ fail ∷ fail ∷ []))).0 ≡ stops (exits exit_failure)
unfolding pipe_main
pipe_test = refl

fifo_test : (fifo_main (start (fail ∷ fail ∷ []))).0 ≡ stops (exits exit_failure)
unfolding fifo_main
fifo_test = refl

exec_test :
    (exec_main (start (gives 0 [] ∷ []))).0
    ≡ stops (execs (codes "grep" ∷ codes "-E" ∷ codes "c$" ∷ codes "-" ∷ []))
unfolding exec_main
exec_test = refl

threads_test :
    (threads_main (start (fail ∷ gives 0 [] ∷ gives 0 [] ∷ gives 0 [] ∷ []))).0
    ≡ returns exit_success
unfolding threads_main
threads_test = refl
