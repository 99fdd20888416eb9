-- ===== src/Graphics.antt =====
-- op_systems/start.cpp, shellInterpreter/opengl.cpp and openGL1.cpp: a triangle in a window, an empty
-- window, and the start of one.
pub mod Calls
pub mod Phases
pub mod Ordered
pub mod Frames
pub mod Window
mod Tests
use osy_materials.Prelude.{
  ℕ, zero, suc, ◌+◌, ◌*◌, String, ℤ, pos, minus_one, Bool, true, false, List, [], ◌∷◌, ◌==◌,
  if◌then◌else◌,
}
use osy_materials.Libc.Strings.{Bytes, c_str}
use osy_materials.Sys.{
  Answer, fail, gives, graphics, print, print_str, warn, exits, crashes, Sys, ◌>>=◌, ◌>>◌, pure,
  stop, act, ask, line_into, give_up_if, exit_success, exit_failure,
}
use osy_materials.Sys.Loop.{Round, again, leave, loop}
use Calls.*

-- The number that a function returned; 0 where it failed.
abbrev pub number : Answer → ℕ
number fail = 0
number (gives n xs) = n

-- What a function has stored in a variable: nothing where it failed.
abbrev pub stored : ℕ → Answer → ℕ
stored old fail = old
stored old (gives n xs) = n

-- `glfwPollEvents` calls `framebuffer_size_callback` with the width and the height of every change.
pub framebuffer_size_callback : Bytes → Sys (Unit {0})
framebuffer_size_callback (width ∷ height ∷ sizes) =
    act (graphics (gl_viewport 0 0 width height)) >> framebuffer_size_callback sizes
framebuffer_size_callback _ = pure tt

pub sizes_of : Answer → Bytes
sizes_of fail = []
sizes_of (gives n sizes) = sizes

pub process_input : ℕ → Sys (Unit {0})
process_input window = do
  key ← ask (graphics (glfw_get_key window glfw_key_escape))
  if number key == glfw_press
      then act (graphics (glfw_set_window_should_close window 1))
      else pure tt

abbrev vertex_shader_source : String
vertex_shader_source =
    "#version 330 core\nlayout (location = 0) in vec3 aPos;\nvoid main()\n{\n   gl_Position = vec4(aPos.x, aPos.y, aPos.z, 1.0);\n}"

abbrev fragment_shader_source : String
fragment_shader_source =
    "#version 330 core\nout vec4 FragColor;\nvoid main()\n{\n   FragColor = vec4(1.0f, 0.5f, 0.2f, 1.0f);\n}\n"

-- `success` and `infoLog` of `main`.
pub record Status : Type 0 where
  pub success : ℕ
  pub info_log : Bytes

-- if(!success) { ...InfoLog(..., 512, NULL, infoLog); std::cout << text << infoLog; }
pub report : GlCall → String → Status → Sys Status
report log_call text s =
    if s.success == 0
    then (ask (graphics log_call) >>= λ a.
        let info : Bytes = line_into 512 s.info_log a in
        act (print_str text (c_str info)) >> pure (record s { info_log = info }))
    else pure s

-- A shader, and whether it has compiled.
pub record Built : Type 0 where
  pub object : ℕ
  pub status : Status

pub build_shader : ℕ → String → String → Status → Sys Built
unfolding report
build_shader type source text s = do
  shader ← ask (graphics (gl_create_shader type))
  act (graphics (gl_shader_source (number shader) source))
  act (graphics (gl_compile_shader (number shader)))
  ok ← ask (graphics (gl_get_shaderiv (number shader) gl_compile_status))
  s' ←
      report (gl_get_shader_info_log (number shader) 512) text
        (record s { success = stored s.success ok })
  pure (record { object = number shader; status = s' })

pub link_program : ℕ → ℕ → Status → Sys ℕ
unfolding report
link_program vertex_shader fragment_shader s = do
  p ← ask (graphics gl_create_program)
  act (graphics (gl_attach_shader (number p) vertex_shader))
  act (graphics (gl_attach_shader (number p) fragment_shader))
  act (graphics (gl_link_program (number p)))
  ok ← ask (graphics (gl_get_programiv (number p) gl_link_status))
  report (gl_get_program_info_log (number p) 512) "ERROR::SHADER::PROGRAM::LINKING_FAILED\n%s\n"
      (record s { success = stored s.success ok })
  act (graphics (gl_delete_shader vertex_shader))
  act (graphics (gl_delete_shader fragment_shader))
  pure (number p)

pub build_program : Status → Sys ℕ
unfolding build_shader link_program
build_program s = do
  v ←
      build_shader gl_vertex_shader vertex_shader_source
        "ERROR::SHADER::VERTEX::COMPILATION_FAILED\n%s\n" s
  f ←
      build_shader gl_fragment_shader fragment_shader_source
        "ERROR::SHADER::FRAGMENT::COMPILATION_FAILED\n%s\n" v.status
  link_program v.object f.object f.status

-- -0.5f, 0.5f and 0.0f, three of them for a corner.
abbrev vertices : List ℕ
vertices = 3204448256 ∷ 3204448256 ∷ 0 ∷ 1056964608 ∷ 3204448256 ∷ 0 ∷ 0 ∷ 1056964608 ∷ 0 ∷ []

-- `VAO` and `VBO`.
pub record Buffers : Type 0 where
  pub vao : ℕ
  pub vbo : ℕ

-- `stale` is what the two uninitialised variables hold.
pub set_up_vertices : Buffers → Sys Buffers
set_up_vertices stale = do
  a ← ask (graphics (gl_gen_vertex_arrays 1))
  b ← ask (graphics (gl_gen_buffers 1))
  let vao = stored stale.vao a
  let vbo = stored stale.vbo b
  act (graphics (gl_bind_vertex_array vao))
  act (graphics (gl_bind_buffer gl_array_buffer vbo))
  act (graphics (gl_buffer_data gl_array_buffer (9 * float_size) vertices gl_static_draw))
  act (graphics (gl_vertex_attrib_pointer 0 3 gl_float gl_false (3 * float_size) 0))
  act (graphics (gl_enable_vertex_attrib_array 0))
  act (graphics (gl_bind_buffer gl_array_buffer 0))
  act (graphics (gl_bind_vertex_array 0))
  pure (record { vao = vao; vbo = vbo })

draw_frame : ℕ → ℕ → ℕ → Sys (Unit {0})
unfolding process_input framebuffer_size_callback sizes_of
draw_frame window program vao = do
  process_input window
  act (graphics (gl_clear_color 1045220557 1050253722 1050253722 1065353216))
  act (graphics (gl_clear gl_color_buffer_bit))
  act (graphics (gl_use_program program))
  act (graphics (gl_bind_vertex_array vao))
  act (graphics (gl_draw_arrays gl_triangles 0 3))
  act (graphics (glfw_swap_buffers window))
  polled ← ask (graphics glfw_poll_events)
  framebuffer_size_callback (sizes_of polled)

pub frame_round : ℕ → ℕ → ℕ → Unit {0} → Sys (Round (Unit {0}))
unfolding draw_frame
frame_round window program vao u = do
  close ← ask (graphics (glfw_window_should_close window))
  if number close == 0 then draw_frame window program vao >> pure (again tt) else pure (leave tt)

-- `main` behind the loading of the functions.
pub render : ℕ → Status → Buffers → ℕ → Sys ℤ
unfolding build_program set_up_vertices frame_round
render fuel status stale window = do
  program ← build_program status
  b ← set_up_vertices stale
  loop fuel (frame_round window program b.vao) tt
  act (graphics (gl_delete_vertex_arrays 1 b.vao))
  act (graphics (gl_delete_buffers 1 b.vbo))
  act (graphics (gl_delete_program program))
  act (graphics glfw_terminate)
  pure (pos 0)

pub load_and_render : ℕ → Status → Buffers → ℕ → Sys ℤ
unfolding render
load_and_render fuel status stale window = do
  act (graphics (glfw_make_context_current window))
  act (graphics (glfw_set_framebuffer_size_callback window))
  loaded ← ask (graphics glad_load_gl_loader)
  if number loaded == 0
      then act (print "Failed to initialize GLAD\n") >> pure minus_one
      else render fuel status stale window

-- By the result of `glfwCreateWindow`: NULL or a window.
pub by_window : ℕ → Status → Buffers → Answer → Sys ℤ
unfolding load_and_render
by_window fuel status stale fail = do
  act (print "Failed to create GLFW window\n")
  act (graphics glfw_terminate)
  pure minus_one
by_window fuel status stale (gives window xs) = load_and_render fuel status stale window

-- The hint for Apple's systems is left out, as the preprocessor does on others.
pub window_hints : Sys (Unit {0})
window_hints = do
  act (graphics (glfw_window_hint glfw_context_version_major 3))
  act (graphics (glfw_window_hint glfw_context_version_minor 3))
  act (graphics (glfw_window_hint glfw_opengl_profile glfw_opengl_core_profile))

-- `main` of start.cpp, on what its uninitialised variables hold.
unfoldable pub main : ℕ → Status → Buffers → Sys ℤ
unfolding by_window window_hints
main fuel status stale = do
  act (graphics glfw_init)
  window_hints
  window ← ask (graphics (glfw_create_window 800 600 "LearnOpenGL"))
  by_window fuel status stale window
