-- ===== src/Agent/Examples.antt =====
-- A draining instance on a node, and the agent's theorems at it.
use k_lite.Agent.Reconcile.{
  AgentState, InstState, Runtime, reconcile, reconcile_instance, state_for, working_copy,
}
use k_lite.Common.{String, [], arith, false, inr, insert, lookup, none, refl, some, true}
use k_lite.Common.Int.{ℤ}
use k_lite.Agent.Reconcile.Drains.{
  IsDrained, IsUntouched, reconcile-IsDrained, reconcile_instance-IsUntouched,
}
use k_lite.Object.Types.{draining, failed}
use k_lite.Store.Examples.{serving_instance}
use k_lite.Agent.Reconcile.Backoff.{IsPaced, reconcile-IsPaced}

abbrev idle_runtime : Runtime (Unit {0})
idle_runtime = record {
  ensure_image = λ image r. (none, r);
  run_instance = λ i node dns r. (none, "c", r);
  inspect_ip = λ id r. ("10.0.0.1", r);
  remove_instance = λ id r. (none, r);
  stop_instance = λ id grace r. (none, r);
}

abbrev code_text : ℤ → String
code_text n = "1"

abbrev draining_state : InstState
draining_state = record {
  state_uid = "u";
  phase = draining;
  restarts = 0;
  state_container = "c";
  ip = "";
  message = "";
  backoff = 0;
  next_try = 0;
  awaiting_restart = false;
  is_draining = true;
}

abbrev one_agent : AgentState
one_agent = record {
  agent_node = "n1";
  dns_ip = "";
  desired = insert "web-1" serving_instance [];
  states = insert "web-1" draining_state [];
  grace = [];
  probe_ready = [];
  report_kicked = false;
}

reconcile_instance-IsUntouched_example :
    IsUntouched serving_instance tt
      (reconcile_instance idle_runtime code_text 7 serving_instance none one_agent tt)
unfolding working_copy state_for lookup insert
reconcile_instance-IsUntouched_example =
    reconcile_instance-IsUntouched idle_runtime code_text 7 serving_instance none one_agent tt
      (inr (record { state = draining_state; found = refl; same_uid = refl; drains = refl }))

reconcile-IsDrained_example :
    IsDrained "web-1" "u" (reconcile idle_runtime code_text 7 [] one_agent tt).1
unfolding lookup insert
reconcile-IsDrained_example =
    reconcile-IsDrained idle_runtime code_text 7 "web-1" "u" [] one_agent tt refl refl
      (record { state = draining_state; found = refl; same_uid = refl; drains = refl })

-- An instance that failed to start before, on a node that cannot pull its image.
abbrev failing_runtime : Runtime (Unit {0})
failing_runtime = record idle_runtime { ensure_image = λ image r. (some "no such image", r) }

abbrev failing_agent : AgentState
failing_agent = record one_agent {
  states =
      insert "web-1"
        (record draining_state {
          phase = failed;
          backoff = 2000000000;
          next_try = 2000000007;
          is_draining = false;
        })
        [];
}

failing_agent-IsPaced : IsPaced 2000000007 failing_agent.states
unfolding insert
failing_agent-IsPaced = (record { paced = inr (1, refl); waits = omega arith }, tt)

reconcile-IsPaced_example :
    IsPaced 2000000007 (reconcile failing_runtime code_text 2000000007 [] failing_agent tt).1.states
reconcile-IsPaced_example =
    reconcile-IsPaced failing_runtime code_text 2000000007 [] failing_agent tt failing_agent-IsPaced
