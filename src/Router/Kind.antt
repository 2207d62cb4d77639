-- ===== src/Router/Kind.antt =====
-- What each builder of src/clausis/router.py fixes of the request that it makes.
use Prim.Native.String
use clausis.Prelude.{String, ◌≡◌, refl, Bool, true, false, not, [], ◌∷◌, Option, none, some, ltb}
use clausis.Outcome.{ok, raised, value_error, reject_if, ok-injective, >>=-eq-ok}
use clausis.Stdlib.{Stdlib}
use clausis.Text.{codes}
use clausis.Models.Value.{Dict, Float, float}
use clausis.Models.Request.{
  ActionRequest, Risk, low, medium, high, local_voice, is_action, is_target, check_expiry,
  post_init,
}
use clausis.Router.Builder.{
  Match, Patterns, Builder, request_of, group, keyed, magnifier_positions, magnifier_modes,
  cross_hair_colors,
}
use clausis.Router.Build.{build, comma_to_dot, stripped, number, folded, spoken_number}

-- the fixed part of what a builder makes
pub record Kind : Type 0 where
  pub action : String
  pub risk : Risk
  pub reversible : Bool

abbrev pub kind : String → Risk → Bool → Kind
kind a k v = record { action = a; risk = k; reversible = v }

abbrev pub kind_of : Builder → Kind
kind_of (Builder.simple action risk reversible) = kind action risk reversible
kind_of (Builder.targeted action risk reversible) = kind action risk reversible
kind_of Builder.volume = kind "audio.volume.set" low true
kind_of Builder.control_number = kind "desktop.control.activate" medium true
kind_of Builder.notification_number = kind "desktop.notifications.dismiss" high false
kind_of Builder.slider = kind "desktop.slider.set_percent" medium true
kind_of (Builder.checkbox checked) = kind "desktop.checkbox.set_checked" medium true
kind_of (Builder.switch enabled) = kind "desktop.switch.set_enabled" medium true
kind_of Builder.combo = kind "desktop.combo.select_item" medium true
kind_of Builder.spin = kind "desktop.spin_button.set_value" medium true
kind_of (Builder.permission_decision value) = kind "desktop.permission_dialog.decide" medium true
kind_of (Builder.file_dialog_decision value) = kind "desktop.file_dialog.decide" medium true
kind_of (Builder.standard_dialog_decision value) = kind "desktop.standard_dialog.decide" high false
kind_of Builder.magnifier_screen_position =
    kind "accessibility.screen_magnifier.set_screen_position" medium true
kind_of Builder.magnifier_focus_tracking =
    kind "accessibility.screen_magnifier.set_focus_tracking" medium true
kind_of (Builder.magnifier_tracking action) = kind action medium true
kind_of (Builder.magnifier_filter action) = kind action medium true
kind_of Builder.magnifier_cross_hairs_named_color =
    kind "accessibility.screen_magnifier.cross_hairs.set_color" medium true
kind_of Builder.magnifier_cross_hairs_rgb_color =
    kind "accessibility.screen_magnifier.cross_hairs.set_color" medium true
kind_of (Builder.magnifier_number action key) = kind action medium true

-- a request of that kind, local and without a token
pub record IsOfKind (k : Kind) (r : ActionRequest) : Type 0 where
  pub same_action : r.action ≡ k.action
  pub same_risk : r.risk ≡ k.risk
  pub same_reversibility : r.reversible ≡ k.reversible
  pub local : r.origin ≡ local_voice
  pub no_token : r.capability_token ≡ none

module _ ⦃py : Stdlib⦄ where
  pub post_init-ok : (q r : ActionRequest) → post_init q ≡ ok r → q ≡ r
  unfolding post_init
  post_init-ok q r h =
      let (_, _, h) = >>=-eq-ok (reject_if (not (is_action (codes q.action))) _) _ h in
      let (_, _, h) = >>=-eq-ok (reject_if (not (is_target (codes q.target))) _) _ h in
      let (_, _, h) = >>=-eq-ok (reject_if (ltb 16384 (String.len (py.dumps q.arguments))) _) _ h in
      let (_, _, h) = >>=-eq-ok (check_expiry q.expires_at) _ h in ok-injective h

  -- every request that is made with the kind is of the kind
  made :
      (a t : String) (d : Dict) (k : Risk) (v : Bool) (r : ActionRequest)
      → post_init (request_of a t d k v) ≡ ok r
      → IsOfKind (kind a k v) r
  made a t d k v r h = rw (← post_init-ok (request_of a t d k v) r h) (record {
    same_action = refl;
    same_risk = refl;
    same_reversibility = refl;
    local = refl;
    no_token = refl;
  })

  pub build-IsOfKind :
      (re : Patterns) (b : Builder) (m : Match) (r : ActionRequest)
      → build re b m ≡ ok r
      → IsOfKind (kind_of b) r
  unfolding build
  build-IsOfKind re (Builder.simple action risk reversible) m r h =
      made action "" [] risk reversible r h
  build-IsOfKind re (Builder.targeted action risk reversible) m r h =
      let (t, _, h) = >>=-eq-ok (stripped "target" m) _ h in made action t [] risk reversible r h
  build-IsOfKind re Builder.volume m r h =
      let (n, _, h) = >>=-eq-ok (number "percent" m) _ h in made _ "" _ low true r h
  build-IsOfKind re Builder.control_number m r h =
      let (value, _, h) = >>=-eq-ok (folded "number" m) _ h in
      let (n, _, h) = >>=-eq-ok (spoken_number value) _ h in made _ _ _ medium true r h
  build-IsOfKind re Builder.notification_number m r h =
      let (value, _, h) = >>=-eq-ok (folded "number" m) _ h in
      let (n, _, h) = >>=-eq-ok (spoken_number value) _ h in made _ _ _ high false r h
  build-IsOfKind re Builder.slider m r h =
      let (t, _, h) = >>=-eq-ok (stripped "target" m) _ h in
      let (n, _, h) = >>=-eq-ok (number "percent" m) _ h in made _ t _ medium true r h
  build-IsOfKind re (Builder.checkbox checked) m r h =
      let (t, _, h) = >>=-eq-ok (stripped "target" m) _ h in made _ t _ medium true r h
  build-IsOfKind re (Builder.switch enabled) m r h =
      let (t, _, h) = >>=-eq-ok (stripped "target" m) _ h in made _ t _ medium true r h
  build-IsOfKind re Builder.combo m r h =
      let (t, _, h) = >>=-eq-ok (stripped "target" m) _ h in
      let (item, _, h) = >>=-eq-ok (stripped "item" m) _ h in made _ t _ medium true r h
  build-IsOfKind re Builder.spin m r h =
      let (raw, _, h) = >>=-eq-ok (group "value" m) _ h in
      let (t, _, h) = >>=-eq-ok (stripped "target" m) _ h in
      spun (re.to_float (comma_to_dot raw)) t h
    where
      spun :
          (x : Option Float) (t : String)
          → elim x [
            | none ↦ raised (value_error "could not convert string to float")
            | some x ↦
                post_init (
                  request_of "desktop.spin_button.set_value" t
                    (("value", float x) ∷ [])
                    medium
                    true)
          ]
            ≡ ok r
          → IsOfKind (kind_of Builder.spin) r
      spun none t h = absurd (cc h)
      spun (some x) t h = made _ t _ medium true r h
  build-IsOfKind re (Builder.permission_decision value) m r h = made _ value [] medium true r h
  build-IsOfKind re (Builder.file_dialog_decision value) m r h = made _ value [] medium true r h
  build-IsOfKind re (Builder.standard_dialog_decision value) m r h = made _ value [] high false r h
  build-IsOfKind re Builder.magnifier_screen_position m r h =
      let (key, _, h) = >>=-eq-ok (folded "position" m) _ h in
      let (position, _, h) = >>=-eq-ok (keyed magnifier_positions key) _ h in
      made _ "" _ medium true r h
  build-IsOfKind re Builder.magnifier_focus_tracking m r h =
      let (key, _, h) = >>=-eq-ok (folded "mode" m) _ h in
      let (mode, _, h) = >>=-eq-ok (keyed magnifier_modes key) _ h in made _ "" _ medium true r h
  build-IsOfKind re (Builder.magnifier_tracking action) m r h =
      let (key, _, h) = >>=-eq-ok (folded "mode" m) _ h in
      let (mode, _, h) = >>=-eq-ok (keyed magnifier_modes key) _ h in made _ "" _ medium true r h
  build-IsOfKind re Builder.magnifier_cross_hairs_named_color m r h =
      let (key, _, h) = >>=-eq-ok (folded "color" m) _ h in
      let (named, _, h) = >>=-eq-ok (keyed cross_hair_colors key) _ h in made _ "" _ medium true r h
  build-IsOfKind re Builder.magnifier_cross_hairs_rgb_color m r h =
      let (red, _, h) = >>=-eq-ok (number "red" m) _ h in
      let (green, _, h) = >>=-eq-ok (number "green" m) _ h in
      let (blue, _, h) = >>=-eq-ok (number "blue" m) _ h in made _ "" _ medium true r h
  build-IsOfKind re (Builder.magnifier_filter action) m r h =
      let (n, _, h) = >>=-eq-ok (number "percent" m) _ h in made _ "" _ medium true r h
  build-IsOfKind re (Builder.magnifier_number action key) m r h =
      let (n, _, h) = >>=-eq-ok (number key m) _ h in made _ "" _ medium true r h
