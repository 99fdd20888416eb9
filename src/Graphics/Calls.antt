-- ===== src/Graphics/Calls.antt =====
-- The calls that the graphics programs make of the libraries GLFW, glad, GLEW and OpenGL, which are
-- not in the repository, and the values of their constants. A `float` is its 32-bit pattern. Arguments
-- that are NULL or the address of a variable are left out, and the 1 for the one source of a shader.
use osy_materials.Prelude.{ℕ, String, List}

pub data GlCall : Type 0 where
  -- the library of windows
  glfw_init glfw_terminate glfw_poll_events : GlCall
  glfw_window_hint : ℕ → ℕ → GlCall
  glfw_create_window : ℕ → ℕ → String → GlCall
  glfw_destroy_window : ℕ → GlCall
  glfw_make_context_current : ℕ → GlCall
  glfw_set_framebuffer_size_callback : ℕ → GlCall
  glfw_get_framebuffer_size : ℕ → GlCall
  glfw_window_should_close : ℕ → GlCall
  glfw_set_window_should_close : ℕ → ℕ → GlCall
  glfw_get_key : ℕ → ℕ → GlCall
  glfw_swap_buffers : ℕ → GlCall
  -- the loaders of the functions of OpenGL
  glad_load_gl_loader glew_init : GlCall
  -- OpenGL
  gl_create_shader : ℕ → GlCall
  gl_shader_source : ℕ → String → GlCall
  gl_compile_shader : ℕ → GlCall
  gl_get_shaderiv : ℕ → ℕ → GlCall
  gl_get_shader_info_log : ℕ → ℕ → GlCall
  gl_delete_shader : ℕ → GlCall
  gl_create_program : GlCall
  gl_attach_shader : ℕ → ℕ → GlCall
  gl_link_program : ℕ → GlCall
  gl_get_programiv : ℕ → ℕ → GlCall
  gl_get_program_info_log : ℕ → ℕ → GlCall
  gl_use_program : ℕ → GlCall
  gl_delete_program : ℕ → GlCall
  gl_gen_vertex_arrays gl_gen_buffers : ℕ → GlCall
  gl_bind_vertex_array : ℕ → GlCall
  gl_bind_buffer : ℕ → ℕ → GlCall
  gl_buffer_data : ℕ → ℕ → List ℕ → ℕ → GlCall
  gl_vertex_attrib_pointer : ℕ → ℕ → ℕ → ℕ → ℕ → ℕ → GlCall
  gl_enable_vertex_attrib_array : ℕ → GlCall
  gl_delete_vertex_arrays : ℕ → ℕ → GlCall
  gl_delete_buffers : ℕ → ℕ → GlCall
  gl_clear_color : ℕ → ℕ → ℕ → ℕ → GlCall
  gl_clear : ℕ → GlCall
  gl_draw_arrays : ℕ → ℕ → ℕ → GlCall
  gl_viewport : ℕ → ℕ → ℕ → ℕ → GlCall

abbrev pub glfw_context_version_major : ℕ
glfw_context_version_major = 139266

abbrev pub glfw_context_version_minor : ℕ
glfw_context_version_minor = 139267

abbrev pub glfw_opengl_profile : ℕ
glfw_opengl_profile = 139272

abbrev pub glfw_opengl_core_profile : ℕ
glfw_opengl_core_profile = 204801

abbrev pub glfw_key_escape : ℕ
glfw_key_escape = 256

abbrev pub glfw_press : ℕ
glfw_press = 1

abbrev pub glew_ok : ℕ
glew_ok = 0

abbrev pub gl_vertex_shader : ℕ
gl_vertex_shader = 35633

abbrev pub gl_fragment_shader : ℕ
gl_fragment_shader = 35632

abbrev pub gl_compile_status : ℕ
gl_compile_status = 35713

abbrev pub gl_link_status : ℕ
gl_link_status = 35714

abbrev pub gl_array_buffer : ℕ
gl_array_buffer = 34962

abbrev pub gl_static_draw : ℕ
gl_static_draw = 35044

abbrev pub gl_float : ℕ
gl_float = 5126

abbrev pub gl_false : ℕ
gl_false = 0

abbrev pub gl_triangles : ℕ
gl_triangles = 4

abbrev pub gl_color_buffer_bit : ℕ
gl_color_buffer_bit = 16384

abbrev pub gl_depth_buffer_bit : ℕ
gl_depth_buffer_bit = 256

abbrev pub gl_stencil_buffer_bit : ℕ
gl_stencil_buffer_bit = 1024

-- `sizeof(float)`
abbrev pub float_size : ℕ
float_size = 4
