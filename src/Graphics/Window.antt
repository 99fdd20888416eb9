-- ===== src/Graphics/Window.antt =====
-- op_systems/shellInterpreter/opengl.cpp and op_systems/openGL1.cpp
use osy_materials.Prelude.{ℕ, ◌+◌, String, ◌∷◌, ℤ, pos, Bool, true, false, ◌==◌, if◌then◌else◌}
use osy_materials.Sys.{
  Answer, fail, gives, graphics, warn, exits, crashes, Sys, ◌>>=◌, ◌>>◌, pure, stop, act, ask,
  exit_success, exit_failure, give_up_if,
}
use osy_materials.Sys.Loop.{Round, again, leave, loop}
use osy_materials.Graphics.Calls.{
  glfw_init, glfw_terminate, glfw_poll_events, glfw_window_hint, glfw_create_window,
  glfw_destroy_window, glfw_make_context_current, glfw_get_framebuffer_size,
  glfw_window_should_close, glfw_swap_buffers, glew_init, gl_clear_color, gl_clear, gl_viewport,
  glfw_context_version_major, glfw_context_version_minor, glew_ok, gl_color_buffer_bit,
  gl_depth_buffer_bit, gl_stencil_buffer_bit,
}
use osy_materials.Graphics.{number, process_input, window_hints}

-- The function ends without the `return` of its `bool`, which C++ leaves undefined.
load_shaders : Sys Bool
load_shaders = stop crashes

clear_round : ℕ → Unit {0} → Sys (Round (Unit {0}))
unfolding process_input
clear_round window u = do
  close ← ask (graphics (glfw_window_should_close window))
  if number close == 0
      then (do
        process_input window
        act (graphics (gl_clear_color 1074580685 1045220557 1082549862 1065353216))
        act (
            graphics (gl_clear (gl_color_buffer_bit + gl_depth_buffer_bit + gl_stencil_buffer_bit)))
        act (graphics (glfw_swap_buffers window))
        act (graphics glfw_poll_events)
        pure (again tt))
      else pure (leave tt)

-- if(bad) { std::cerr << text; glfwTerminate(); exit(EXIT_FAILURE); }
terminate_if : Bool → String → Sys (Unit {0})
terminate_if bad text =
    if bad
    then (act (warn text) >> act (graphics glfw_terminate) >> stop (exits exit_failure))
    else pure tt

-- `glewInit() != GLEW_OK`
abbrev not_loaded : Answer → Bool
not_loaded fail = true
not_loaded (gives n xs) = if n == glew_ok then false else true

-- `glfwGetFramebufferSize` stores the width and the height, and 0 in both where it fails.
abbrev height_of : Answer → ℕ
height_of (gives width (height ∷ xs)) = height
height_of _ = 0

-- `main` of opengl.cpp behind the making of the window.
show_window : ℕ → ℕ → Sys ℤ
unfolding load_shaders clear_round terminate_if
show_window fuel window = do
  size ← ask (graphics (glfw_get_framebuffer_size window))
  act (graphics (glfw_make_context_current window))
  act (graphics (gl_viewport 0 0 (number size) (height_of size)))
  glew ← ask (graphics glew_init)
  terminate_if (not_loaded glew) "Could not init Glew\n"
  load_shaders
  loop fuel (clear_round window) tt
  act (graphics (glfw_destroy_window window))
  act (graphics glfw_terminate)
  stop (exits exit_success)

-- By the result of `glfwCreateWindow`.
by_window : ℕ → Answer → Sys ℤ
unfolding show_window terminate_if
by_window fuel fail = terminate_if true "Terminating app\n" >> pure (pos 0)
by_window fuel (gives window xs) = show_window fuel window

-- `main` of opengl.cpp.
unfoldable pub opengl_main : ℕ → Sys ℤ
unfolding by_window window_hints
opengl_main fuel = do
  window_hints
  started ← ask (graphics glfw_init)
  give_up_if (number started == 0) "Could not init opengl\n"
  window ← ask (graphics (glfw_create_window 500 500 "Opengl"))
  by_window fuel window

-- `main` of openGL1.cpp.
unfoldable pub hints_main : Sys ℤ
hints_main = do
  act (graphics glfw_init)
  act (graphics (glfw_window_hint glfw_context_version_major 3))
  act (graphics (glfw_window_hint glfw_context_version_minor 3))
  pure (pos exit_success)
