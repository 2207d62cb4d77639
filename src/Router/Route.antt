-- ===== src/Router/Route.antt =====
-- `OfflineRouter` of src/clausis/router.py.
use Prim.Native.String
use clausis.Prelude.{
  String, ◌||◌, List, [], ◌∷◌, Option, none, some, if◌then◌else◌, ltb, is_empty, length, str_eq,
}
use clausis.Outcome.{Outcome, ok, ◌>>=◌}
use clausis.Stdlib.{Stdlib, Text}
use clausis.Text.{codes, strip, normalize_spaces}
use clausis.Models.Request.{ActionRequest, post_init}
use clausis.Router.Builder.{Match, Patterns, Builder, CommandPattern, request_of}
use clausis.Router.Build.{build}
use clausis.Router.Commands.{commands}

-- _rx: the pattern that is compiled for a value
abbrev pub anchored : String → String
anchored value = String.◌++◌ "^(?:" (String.◌++◌ value ")[.!?]*$")

-- the first pattern that matches the whole text
unfoldable pub first_match : Patterns → Text → List String → Option Match
first_match re t [] = none
first_match re t (p ∷ ps) =
    let rest = first_match re t ps in
    elim (re.fullmatch (anchored p) t) [ some m ↦ some m | none ↦ rest ]

-- the first command that matches
unfoldable pub find_command : Patterns → Text → List CommandPattern → Option (Builder × Match)
find_command re t [] = none
find_command re t (c ∷ cs) =
    let rest = find_command re t cs in
    elim (first_match re t c.patterns) [ some m ↦ some (c.builder, m) | none ↦ rest ]

module _ ⦃py : Stdlib⦄ where
  -- the request that is returned for what the builder made
  abbrev pub returned : ActionRequest → Outcome (Option ActionRequest)
  returned r = if str_eq r.action "voice.stop" then ok (some r) else (do
    s ← post_init (request_of r.action r.target r.arguments r.risk r.reversible)
    ok (some s))

  abbrev pub routed : Patterns → Option (Builder × Match) → Outcome (Option ActionRequest)
  routed re none = ok none
  routed re (some (b, m)) = build re b m >>= returned

  -- OfflineRouter.route
  unfoldable pub route : Patterns → String → Outcome (Option ActionRequest)
  route re transcript =
      let normalized = normalize_spaces (strip (codes transcript)) in
      if is_empty normalized || ltb 1024 (length normalized)
      then ok none
      else routed re (find_command re normalized commands)
