-- ===== src/Policy/Rule.antt =====
-- `ActionPolicy` of src/clausis/policy.py. The function in its field `validator` is named by a
-- constructor, and `validate` runs it.
use clausis.Prelude.{String, Bool, List, Option, none, some}
use clausis.Outcome.{Outcome, ok}
use clausis.Stdlib.{Stdlib}
use clausis.Models.Request.{Risk, ActionRequest}
use clausis.Policy.Validators.Targets
use clausis.Policy.Validators.Parameters

pub data Validator : Type 0 where
  target_required no_parameters safe_identifier path percentage slider_percentage : Validator
  magnifier_percentage magnifier_saturation magnifier_filter_percentage : Validator
  magnifier_cross_hairs_opacity magnifier_cross_hairs_length : Validator
  magnifier_cross_hairs_thickness magnifier_cross_hairs_color : Validator
  magnifier_screen_position magnifier_focus_tracking magnifier_caret_tracking : Validator
  magnifier_mouse_tracking checkbox_state radio_name combo_item spin_value setting : Validator
  control_number notification_number accessible_name spoken_text visible_file_name : Validator
  permission_decision file_dialog_decision standard_dialog_decision : Validator
  canonical_absolute_path : Validator

pub record ActionPolicy : Type 0 where
  pub minimum_risk : Risk
  pub reversible : Bool
  pub command : Option (List String)
  pub validator : Option Validator
  pub privileged : Bool

module _ ⦃py : Stdlib⦄ where
  abbrev pub run_validator : Validator → ActionRequest → Outcome (Unit {0})
  run_validator target_required = Targets.target_required
  run_validator no_parameters = Targets.no_parameters
  run_validator safe_identifier = Targets.safe_identifier
  run_validator path = Targets.path
  run_validator percentage = Parameters.percentage
  run_validator slider_percentage = Parameters.slider_percentage
  run_validator magnifier_percentage = Parameters.magnifier_percentage
  run_validator magnifier_saturation = Parameters.magnifier_saturation
  run_validator magnifier_filter_percentage = Parameters.magnifier_filter_percentage
  run_validator magnifier_cross_hairs_opacity = Parameters.magnifier_cross_hairs_opacity
  run_validator magnifier_cross_hairs_length = Parameters.magnifier_cross_hairs_length
  run_validator magnifier_cross_hairs_thickness = Parameters.magnifier_cross_hairs_thickness
  run_validator magnifier_cross_hairs_color = Parameters.magnifier_cross_hairs_color
  run_validator magnifier_screen_position = Parameters.magnifier_screen_position
  run_validator magnifier_focus_tracking = Parameters.magnifier_focus_tracking
  run_validator magnifier_caret_tracking = Parameters.magnifier_caret_tracking
  run_validator magnifier_mouse_tracking = Parameters.magnifier_mouse_tracking
  run_validator checkbox_state = Parameters.checkbox_state
  run_validator radio_name = Parameters.radio_name
  run_validator combo_item = Parameters.combo_item
  run_validator spin_value = Parameters.spin_value
  run_validator setting = Targets.setting
  run_validator control_number = Targets.control_number
  run_validator notification_number = Targets.notification_number
  run_validator accessible_name = Targets.accessible_name
  run_validator spoken_text = Targets.spoken_text
  run_validator visible_file_name = Targets.visible_file_name
  run_validator permission_decision = Targets.permission_decision
  run_validator file_dialog_decision = Targets.file_dialog_decision
  run_validator standard_dialog_decision = Targets.standard_dialog_decision
  run_validator canonical_absolute_path = Targets.canonical_absolute_path

  -- `if policy.validator: policy.validator(request)`
  abbrev pub validate : Option Validator → ActionRequest → Outcome (Unit {0})
  validate none r = ok tt
  validate (some v) r = run_validator v r
