-- ===== src/Graphics/Frames.antt =====
-- The frames that start.cpp draws while the shaders compile and the library answers.
use osy_materials.Prelude.{ℕ, ◌≡◌, List, [], ◌∷◌, ◌++◌, ◌*◌, map, ◌==◌, if◌then◌else◌}
use osy_materials.Libc.Strings.{Bytes}
use osy_materials.Sys.{Answer, gives, Call, graphics, World, Outcome, returns}
use osy_materials.Graphics.Calls.{
  GlCall, float_size, gl_array_buffer, gl_attach_shader, gl_bind_buffer, gl_bind_vertex_array,
  gl_buffer_data, gl_clear, gl_color_buffer_bit, gl_compile_shader, gl_compile_status,
  gl_create_program, gl_create_shader, gl_delete_shader, gl_draw_arrays,
  gl_enable_vertex_attrib_array, gl_false, gl_float, gl_fragment_shader, gl_gen_buffers,
  gl_gen_vertex_arrays, gl_get_programiv, gl_get_shaderiv, gl_link_program, gl_link_status,
  gl_shader_source, gl_static_draw, gl_triangles, gl_use_program, gl_vertex_attrib_pointer,
  gl_vertex_shader, glad_load_gl_loader, glfw_context_version_major, glfw_context_version_minor,
  glfw_create_window, glfw_init, glfw_make_context_current, glfw_opengl_core_profile,
  glfw_opengl_profile, glfw_press, glfw_set_framebuffer_size_callback, glfw_set_window_should_close,
  glfw_swap_buffers, glfw_window_hint,
}
use osy_materials.Graphics.{Buffers, vertices, vertex_shader_source, fragment_shader_source}

-- What happens in a frame: the state of the key, and the changes of the window's size.
pub record Frame : Type 0 where
  pub key : ℕ
  pub sizes : Bytes

-- The library's answers in these frames; then it tells the program to close the window.
abbrev pub frames_answers : List Frame → List Answer
frames_answers [] = gives 1 [] ∷ []
frames_answers (f ∷ fs) = gives 0 [] ∷ gives f.key [] ∷ gives 0 f.sizes ∷ frames_answers fs

-- The calls that a user sees the effect of, with their arguments and in order: to clear, to choose the
-- program, to draw, to show what was drawn, and to close the window.
abbrev pub shown : List Call → List GlCall
shown [] = []
shown (graphics (glfw_set_window_should_close window value) ∷ log) =
    shown log ++ glfw_set_window_should_close window value ∷ []
shown (graphics (gl_clear mask) ∷ log) = shown log ++ gl_clear mask ∷ []
shown (graphics (gl_use_program program) ∷ log) = shown log ++ gl_use_program program ∷ []
shown (graphics (gl_draw_arrays mode first count) ∷ log) =
    shown log ++ gl_draw_arrays mode first count ∷ []
shown (graphics (glfw_swap_buffers window) ∷ log) = shown log ++ glfw_swap_buffers window ∷ []
shown (_ ∷ log) = shown log

-- The window is asked to close when the escape key is pressed.
abbrev closing : ℕ → ℕ → List GlCall
closing window key = if key == glfw_press then glfw_set_window_should_close window 1 ∷ [] else []

-- The cleared window, the triangle of three corners from the first, and the buffers swapped.
abbrev drawing : ℕ → ℕ → List GlCall
drawing window program =
    gl_clear gl_color_buffer_bit
    ∷ gl_use_program program
    ∷ gl_draw_arrays gl_triangles 0 3
    ∷ glfw_swap_buffers window
    ∷ []

abbrev pub frame : ℕ → ℕ → Frame → List GlCall
frame window program f = closing window f.key ++ drawing window program

abbrev pub all_frames : ℕ → ℕ → List Frame → List GlCall
all_frames window program [] = []
all_frames window program (f ∷ fs) = frame window program f ++ all_frames window program fs

-- A step with these answers left that shows these calls.
abbrev Draws : {A : Type 0} → Outcome A × World → A → List Answer → List Call → List GlCall → Type 0
Draws r a answers log calls =
    (log' : List Call) × (r ≡ (returns a, record { answers = answers; log = log' }))
    × (shown log' ≡ shown log ++ calls)

-- The answers while the window, the two shaders and the program are made.
abbrev pub set_up_answers : ℕ → ℕ → ℕ → ℕ → Buffers → List Answer → List Answer
set_up_answers window v f program b rest =
    gives window []
    ∷ gives 1 []
    ∷ gives v []
    ∷ gives 1 []
    ∷ gives f []
    ∷ gives 1 []
    ∷ gives program []
    ∷ gives 1 []
    ∷ gives b.vao []
    ∷ gives b.vbo []
    ∷ rest

-- What they are for, the latest call first.
abbrev set_up_log : ℕ → ℕ → ℕ → ℕ → Buffers → List Call
set_up_log window v f program b = map graphics (
    gl_bind_vertex_array 0
    ∷ gl_bind_buffer gl_array_buffer 0
    ∷ gl_enable_vertex_attrib_array 0
    ∷ gl_vertex_attrib_pointer 0 3 gl_float gl_false (3 * float_size) 0
    ∷ gl_buffer_data gl_array_buffer (9 * float_size) vertices gl_static_draw
    ∷ gl_bind_buffer gl_array_buffer b.vbo
    ∷ gl_bind_vertex_array b.vao
    ∷ gl_gen_buffers 1
    ∷ gl_gen_vertex_arrays 1
    ∷ gl_delete_shader f
    ∷ gl_delete_shader v
    ∷ gl_get_programiv program gl_link_status
    ∷ gl_link_program program
    ∷ gl_attach_shader program f
    ∷ gl_attach_shader program v
    ∷ gl_create_program
    ∷ gl_get_shaderiv f gl_compile_status
    ∷ gl_compile_shader f
    ∷ gl_shader_source f fragment_shader_source
    ∷ gl_create_shader gl_fragment_shader
    ∷ gl_get_shaderiv v gl_compile_status
    ∷ gl_compile_shader v
    ∷ gl_shader_source v vertex_shader_source
    ∷ gl_create_shader gl_vertex_shader
    ∷ glad_load_gl_loader
    ∷ glfw_set_framebuffer_size_callback window
    ∷ glfw_make_context_current window
    ∷ glfw_create_window 800 600 "LearnOpenGL"
    ∷ glfw_window_hint glfw_opengl_profile glfw_opengl_core_profile
    ∷ glfw_window_hint glfw_context_version_minor 3
    ∷ glfw_window_hint glfw_context_version_major 3
    ∷ glfw_init
    ∷ [])
