-- ===== src/Tests/PolicyRuns.antt =====
-- Runs of the theorems on src/clausis/policy.py and src/clausis/models.py.
use clausis.Prelude.{◌≡◌, refl, true, false, [], ◌∷◌, none, some}
use clausis.Outcome.{ok}
use clausis.Models.Request.{low, to_dict, post_init}
use clausis.Models.Parse.{from_dict, from_dict-to_dict}
use clausis.Policy.Rule.{ActionPolicy}
use clausis.Policy.Evaluate.{policy_of, evaluate, evaluate_by, decide}
use clausis.Policy.Evaluate.Decisions.{IsAllowed, evaluate_sound}
use clausis.Tests.Fixtures.{ascii, louder}

abbrev pub louder_policy : ActionPolicy
louder_policy = record {
  minimum_risk = low;
  reversible = true;
  command = some ("wpctl" ∷ "set-volume" ∷ "@DEFAULT_AUDIO_SINK@" ∷ "5%+" ∷ []);
  validator = none;
  privileged = false;
}

louder-listed : policy_of "audio.volume.up" ≡ some louder_policy
unfolding policy_of
louder-listed = refl

pub louder-evaluated : evaluate louder ≡ ok (decide louder_policy louder)
unfolding evaluate evaluate_by policy_of
louder-evaluated = refl

evaluate_sound_example : IsAllowed louder (decide louder_policy louder)
evaluate_sound_example = evaluate_sound louder (decide louder_policy louder) louder-evaluated

from_dict-to_dict_example : from_dict (to_dict louder) ≡ post_init louder
from_dict-to_dict_example = from_dict-to_dict louder
