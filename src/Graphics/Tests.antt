-- ===== src/Graphics/Tests.antt =====
-- Runs of the graphics programs, and their theorems at concrete inputs.
use osy_materials.Prelude.{◌≡◌, refl, minus_one, List, none, some, [], ◌∷◌}
use osy_materials.Sys.{Answer, gives, returns, stops, crashes, start}
use osy_materials.Graphics.{main, Status, Buffers}
use osy_materials.Graphics.Window.{opengl_main, hints_main}
use osy_materials.Graphics.Phases.{loaded, started, phase}
use osy_materials.Graphics.Frames.{Frame, frames_answers, set_up_answers}

abbrev status : Status
status = record { success = 5; info_log = 7 ∷ 8 ∷ [] }

abbrev stale : Buffers
stale = record { vao = 70; vbo = 71 }

abbrev buffers : Buffers
buffers = record { vao = 1; vbo = 2 }

-- The window changes its size in the first frame, and the escape key is pressed in the second.
abbrev two_frames : List Frame
two_frames = record { key = 0; sizes = 1024 ∷ 768 ∷ [] } ∷ record { key = 1; sizes = [] } ∷ []

abbrev two_answers : List Answer
two_answers = set_up_answers 9 3 4 5 buffers (frames_answers two_frames)

-- Where the functions cannot be loaded the library is not terminated.
not_loaded_test :
    let r = main 3 status stale (start (gives 9 [] ∷ gives 0 [] ∷ [])) in
    (r.0 ≡ returns minus_one) × (phase r.1.log ≡ some loaded)
unfolding main
not_loaded_test = (refl, refl)

-- opengl.cpp gives its hints before `glfwInit`, and it never gets to its loop.
hints_test : phase (opengl_main 3 (start [])).1.log ≡ none
unfolding opengl_main
hints_test = refl

crash_test :
    (opengl_main 3 (start (gives 1 [] ∷ gives 9 [] ∷ gives 640 (480 ∷ []) ∷ gives 0 [] ∷ []))).0
    ≡ stops crashes
unfolding opengl_main
crash_test = refl

-- openGL1.cpp ends without terminating the library.
hints_main_test : phase (hints_main (start [])).1.log ≡ some started
unfolding hints_main
hints_main_test = refl
