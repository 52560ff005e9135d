-- ===== src/Minarch/Config/Frontend.antt =====
-- workspace/all/minarch/minarch.c: the options of the frontend itself and its variables.
use darkui.Base.{
  ℕ, Bool, true, false, not, ◌||◌, List, [], ◌∷◌, Option, none, some, if◌then◌else◌, get_elem?,
  take, ◌==◌,
}
use darkui.CString.{Bytes, bytes}
use darkui.Names.{exact_match}
use darkui.Minarch.Options.{OptionItem, change_at}

-- the variables of minarch.c that the options stand for, what the graphics library is told
-- (`gfx_sharpness`, `gfx_effect`), and whether the scaler is to be chosen again (`dst_p`)
pub record Variables : Type 0 where
  pub screen_scaling : ℕ
  pub screen_effect : ℕ
  pub screen_sharpness : ℕ
  pub prevent_tearing : ℕ
  pub overclock : ℕ
  pub show_debug : ℕ
  pub max_ff_speed : ℕ
  pub thread_video : Bool
  pub was_threaded : Bool
  pub toggle_thread : Bool
  pub gfx_sharpness : ℕ
  pub gfx_effect : ℕ
  pub dst_p_reset : Bool

-- the indices FE_OPT_SCALING, ...
pub data FrontendOption : Type 0 where
  scaling : FrontendOption
  effect : FrontendOption
  sharpness : FrontendOption
  tearing : FrontendOption
  overclock : FrontendOption
  thread : FrontendOption
  debug : FrontendOption
  max_ff : FrontendOption

abbrev pub fe_index : FrontendOption → ℕ
fe_index FrontendOption.scaling = 0
fe_index FrontendOption.effect = 1
fe_index FrontendOption.sharpness = 2
fe_index FrontendOption.tearing = 3
fe_index FrontendOption.overclock = 4
fe_index FrontendOption.thread = 5
fe_index FrontendOption.debug = 6
fe_index FrontendOption.max_ff = 7

-- the order of the tests in `Config_syncFrontend`
abbrev pub sync_order : List FrontendOption
sync_order =
    FrontendOption.scaling ∷ FrontendOption.effect ∷ FrontendOption.sharpness
    ∷ FrontendOption.tearing ∷ FrontendOption.thread ∷ FrontendOption.overclock
    ∷ FrontendOption.debug ∷ FrontendOption.max_ff ∷ []

abbrev has_key : Bytes → Option OptionItem → Bool
has_key key none = false
has_key key (some option) = exact_match key option.key

-- the chain of `else if`: the first option with the key
pub synced_option : Bytes → List OptionItem → List FrontendOption → Option FrontendOption
unfolding exact_match
synced_option key options [] = none
synced_option key options (o ∷ order) =
    let later = synced_option key options order in
    if has_key key (get_elem? options (fe_index o)) then some o else later

abbrev scale_native : ℕ
scale_native = 0

abbrev sharpness_sharp : ℕ
sharpness_sharp = 0

-- `if (screen_scaling==SCALE_NATIVE) GFX_setSharpness(SHARPNESS_SHARP); else ...; dst_p = 0;`
abbrev pub apply_sharpness : Variables → Variables
apply_sharpness v = record v {
  gfx_sharpness = if v.screen_scaling == scale_native then sharpness_sharp else v.screen_sharpness;
  dst_p_reset = true;
}

abbrev pub as_int : Bool → ℕ
as_int true = 1
as_int false = 0

abbrev pub sync_variable : FrontendOption → ℕ → Variables → Variables
sync_variable FrontendOption.scaling value v = apply_sharpness (record v { screen_scaling = value })
sync_variable FrontendOption.effect value v = record v {
  screen_effect = value;
  gfx_effect = value;
  dst_p_reset = true;
}
sync_variable FrontendOption.sharpness value v =
    apply_sharpness (record v { screen_sharpness = value })
sync_variable FrontendOption.tearing value v = record v { prevent_tearing = value }
sync_variable FrontendOption.thread value v = record v {
  toggle_thread = not (as_int (v.thread_video || v.was_threaded) == value);
}
sync_variable FrontendOption.overclock value v = record v { overclock = value }
sync_variable FrontendOption.debug value v = record v { show_debug = value }
sync_variable FrontendOption.max_ff value v = record v { max_ff_speed = value }

-- `Config_syncFrontend`
unfoldable pub sync_frontend : Bytes → ℕ → List OptionItem → Variables → List OptionItem × Variables
unfolding synced_option
sync_frontend key value options variables = elim (synced_option key options sync_order) [
  | none ↦ (options, variables)
  | some o ↦ (
    change_at (fe_index o) (λ option. record option { value = value }) options,
    sync_variable o value variables,
  )
]

-- `scaling_labels`, `getScreenScalingCount` and the cut of the labels in `Config_load`
abbrev pub scaling_values : Bool → List Bytes
scaling_values overscan =
    take (if overscan then 4 else 3)
      (bytes "Native" ∷ bytes "Aspect" ∷ bytes "Fullscreen" ∷ bytes "Cropped" ∷ [])
