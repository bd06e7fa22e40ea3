-- ===== src/Mcp/Router/Choice.antt =====
-- Which model `route` may choose.
use c_e.Common.{true, false, ◌≡◌, ◌⊎◌, arith, none}
use c_e.Mcp.Models.{ModelId, TaskType, task_to_model}
use c_e.Mcp.Breaker.{is_open}
use c_e.Mcp.Router.{RouterConfig, Breakers, is_in, is_gpu, forced, choose}

module _ (c : RouterConfig) (breakers : Breakers) (t : TaskType) where
  -- The chosen model is enabled with a closed circuit, or it is the enabled fallback of the task,
  -- or it is Claude. So a disabled model is chosen only if it is Claude.
  pub choose_usable :
      let m = choose c breakers t in
      ((is_in m c.disabled_models ≡ false) × (is_open (breakers m) ≡ false))
      ⊎ ((is_in m c.disabled_models ≡ false) × (m ≡ (task_to_model t).1))
      ⊎ (m ≡ ModelId.claude)
  unfolding choose
  choose_usable = ground arith

  -- With the GPU cloud off, a task whose fallback runs on a GPU is sent there all the same as soon
  -- as its primary model, one that needs no GPU, is disabled or its circuit is open, provided the
  -- fallback is enabled and no model is forced for the task.
  pub gpu_off_still_chosen :
      c.gpu_cloud_enabled ≡ false
      → forced t c.forced_models ≡ none
      → is_gpu (task_to_model t).0 ≡ false
      → is_gpu (task_to_model t).1 ≡ true
      → (is_in (task_to_model t).0 c.disabled_models ≡ true)
        ⊎ (is_open (breakers (task_to_model t).0) ≡ true)
      → is_in (task_to_model t).1 c.disabled_models ≡ false
      → is_gpu (choose c breakers t) ≡ true
  unfolding choose
  gpu_off_still_chosen off unforced p q down up = ground arith
