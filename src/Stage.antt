-- ===== src/Stage.antt =====
-- The stages of a milter connection (`milter_stage_t`, src/include/milter.h). A stage is one bit, and
-- the sets of stages that the code builds by `|` are the tests below.
use mopher.Prelude.{Bool, true, false}

pub data Stage : Type 0 where
  init connect unknown helo envfrom envrcpt data_stage header eoh body eom abort close : Stage

-- `MS_ANY`: neither `MS_INIT` nor `MS_UNKNOWN` is in it.
unfoldable pub is_any : Stage → Bool
is_any init = false
is_any unknown = false
is_any _ = true

-- `MS_ANY | MS_INIT`
unfoldable pub is_any_or_init : Stage → Bool
is_any_or_init unknown = false
is_any_or_init _ = true

-- `MS_OFF_ENVRCPT`
unfoldable pub is_off_envrcpt : Stage → Bool
is_off_envrcpt init = false
is_off_envrcpt connect = false
is_off_envrcpt unknown = false
is_off_envrcpt helo = false
is_off_envrcpt envfrom = false
is_off_envrcpt _ = true

unfoldable pub is_eom : Stage → Bool
is_eom eom = true
is_eom _ = false

unfoldable pub is_envrcpt : Stage → Bool
is_envrcpt envrcpt = true
is_envrcpt _ = false
