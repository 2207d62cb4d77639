-- ===== src/Desktop/DryRun.antt =====
-- The executors of src/clausis/gnome_adapter.py and src/clausis/broker.py in a dry run.
use clausis.Prelude.{
  String, ◌≡◌, ◌⊎◌, inl, inr, refl, Bool, true, false, ◌&&◌, not, List, arith, if◌then◌else◌, elem,
  some,
}
use clausis.Outcome.{Outcome, ok}
use clausis.Stdlib.{Stdlib}
use clausis.Models.Request.{ActionRequest, ActionResult}
use clausis.Policy.Rule.{ActionPolicy}
use clausis.Broker.Executor.{Executor, Argv, Completed, safe_execute, safe_executor}
use clausis.Desktop.Session.{
  semantic_actions, semantic_read_only, held_back, SessionExecutor, session_execute,
}

module _ ⦃py : Stdlib⦄ {World : Type 0}
    (run : List (String × String) → Argv → World → Outcome Completed × World) where
  safe_execute-dry :
      (environ : List (String × String)) (r : ActionRequest) (p : ActionPolicy) (w : World)
      → (safe_execute run true environ r p w).1 ≡ w
  unfolding safe_execute
  safe_execute-dry environ r p w = ground arith

  abbrev pub dry_session : List (String × String) → Executor World → SessionExecutor World
  dry_session environ semantic = record {
    command_executor = record { executor = safe_executor run true environ; dry_run = some true };
    semantic_executor = semantic;
  }

  -- With both executors in a dry run, an action leaves the session as it was, or is one of the fourteen
  -- semantic actions that only read, and then the semantic executor carries it out.
  pub session_execute-dry :
      (environ : List (String × String)) (semantic : Executor World) (r : ActionRequest)
      (p : ActionPolicy) (w : World)
      → ((session_execute (dry_session environ semantic) r p w).1 ≡ w)
        ⊎ ((elem r.action semantic_read_only ≡ true)
            × (session_execute (dry_session environ semantic) r p w
                ≡ Executor.execute semantic r p w))
  unfolding session_execute
  session_execute-dry environ semantic r p w =
      step (elem r.action semantic_actions) (elem r.action semantic_read_only)
    where
      Came : Type 0
      Came = Outcome ActionResult × World

      ran : Came
      ran = Executor.execute semantic r p w

      step :
          (s reads : Bool)
          → ((if◌then◌else◌ {A = Came} s
                (if (s && not reads) && true then (ok (held_back r), w) else ran)
                (safe_execute run true environ r p w)).1
              ≡ w)
            ⊎ ((reads ≡ true)
                × ((if◌then◌else◌ {A = Came} s
                      (if (s && not reads) && true then (ok (held_back r), w) else ran)
                      (safe_execute run true environ r p w))
                    ≡ ran))
      step true true = inr (refl, refl)
      step true false = inl refl
      step false reads = inl (safe_execute-dry environ r p w)
