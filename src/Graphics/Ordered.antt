-- ===== src/Graphics/Ordered.antt =====
-- The order of the calls of start.cpp.
use osy_materials.Prelude.{ℕ, ◌≡◌, some, if◌then◌else◌, ℤ, pos, minus_one, List, [], ◌∷◌, map, ◌==◌}
use osy_materials.Sys.{Answer, gives, Call, World, Outcome, graphics}
use osy_materials.Sys.Loop.{Ensures}
use osy_materials.Graphics.Calls.{
  glfw_init, glfw_create_window, glfw_make_context_current, glfw_set_framebuffer_size_callback,
  glad_load_gl_loader, glfw_context_version_major, glfw_context_version_minor, glfw_opengl_profile,
  glfw_opengl_core_profile, glfw_window_hint,
}
use osy_materials.Graphics.{number}
use osy_materials.Graphics.Phases.{Phase, loaded, terminated, phase, InOrder}

-- The program returns 0 with the library terminated.
abbrev Ended : ℤ → Phase → Type 0
Ended v p = (p ≡ terminated) × (v ≡ pos 0)

-- How `main` returns, by the first two answers, the window's and the loading's: the value, and the
-- phase that the libraries are left in.
abbrev pub end_value : List Answer → ℤ
end_value (gives window xs ∷ a ∷ answers) = if number a == 0 then minus_one else pos 0
end_value _ = minus_one

abbrev pub end_phase : List Answer → Phase
end_phase (gives window xs ∷ a ∷ answers) = if number a == 0 then loaded else terminated
end_phase _ = terminated

-- It returns like this, or is stopped with no call out of order.
abbrev pub EndsInOrder : List Answer → Outcome ℤ → World → Type 0
EndsInOrder answers =
    Ensures (λ v w. (v ≡ end_value answers) × (phase w.log ≡ some (end_phase answers)))
      (λ e w. InOrder w.log)

-- The calls up to the loading, the latest first.
abbrev loading_log : ℕ → List Call
loading_log window = map graphics (
    glad_load_gl_loader
    ∷ glfw_set_framebuffer_size_callback window
    ∷ glfw_make_context_current window
    ∷ glfw_create_window 800 600 "LearnOpenGL"
    ∷ glfw_window_hint glfw_opengl_profile glfw_opengl_core_profile
    ∷ glfw_window_hint glfw_context_version_minor 3
    ∷ glfw_window_hint glfw_context_version_major 3
    ∷ glfw_init
    ∷ [])
