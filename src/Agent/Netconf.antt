-- ===== src/Agent/Netconf.antt =====
-- internal/agent/netconf.go: what the agent pushes to the klite-net daemon of its node, and what it takes
-- from it. The calls of the daemon's admin service are arguments; `none` is a call that failed.
use k_lite.Common.{
  Bool, List, Map, Option, String, [], false, if◌then◌else◌, insert, length, none, not, some, true,
  ℕ, ◌||◌, ◌∷◌,
}
use k_lite.Common.Int.{eqb_ℤ, pos, ℤ}
use k_lite.Net.{NetDesired, ServiceVip, empty_net}

-- HealthResponse
pub record Health : Type 0 where
  pub dns_ready : Bool
  pub health_vips_bound : ℤ

pub record NetState : Type 0 where
  pub have_snapshot : Bool
  pub desired_net : Option NetDesired
  pub applied_net : Option NetDesired
  pub net_healthy : Bool
  pub probed_ready : Map Bool
  pub report_wanted : Bool
  pub reconcile_wanted : Bool

-- uniqueVIPs
unfoldable pub unique_vips : List ServiceVip → Map Bool → ℕ
unique_vips [] seen = length seen
unique_vips (s ∷ ss) seen = unique_vips ss (insert s.vip true seen)

-- currentNet
unfoldable pub current_net : NetState → Option NetDesired
current_net n =
    if not n.have_snapshot
    then none
    else elim n.desired_net [ none ↦ some empty_net | some d ↦ some d ]

-- setNetHealthy
unfoldable pub set_net_healthy : Bool → NetState → NetState
set_net_healthy healthy n = record n {
  net_healthy = healthy;
  report_wanted = n.report_wanted || not (if healthy then n.net_healthy else not n.net_healthy);
}

-- The loop of updateProbes.
unfoldable pub verdicts : List (String × Bool) → Map Bool → Map Bool
verdicts [] m = m
verdicts ((name, up) ∷ ps) m = verdicts ps (insert name up m)

module _ (same_probes : Map Bool → Map Bool → Bool) where
  -- updateProbes; `same_probes` is maps.Equal
  unfoldable pub update_probes : List (String × Bool) → NetState → NetState
  unfolding verdicts
  update_probes ps n =
      let fresh = verdicts ps [] in
      record n {
        probed_ready = fresh;
        reconcile_wanted = n.reconcile_wanted || not (same_probes n.probed_ready fresh);
      }

  module _ (equal : NetDesired → NetDesired → Bool) where
    -- needNetPush; `equal` is proto.Equal
    unfoldable pub need_net_push : NetState → NetDesired → Health → Bool
    unfolding unique_vips
    need_net_push n desired h = elim n.applied_net [
      | none ↦ true
      | some last ↦
          not (equal last desired)
          || not (eqb_ℤ h.health_vips_bound (pos (unique_vips desired.services [])))
    ]

    -- What follows the push, or the decision that none is needed.
    unfoldable pub after_push : Health → Option (List (String × Bool)) → NetState → NetState
    unfolding set_net_healthy update_probes
    after_push h none n = set_net_healthy h.dns_ready n
    after_push h (some ps) n = update_probes ps (set_net_healthy h.dns_ready n)

    -- syncNet, with the answers of Health, ApplyConfig and Probes; the context is not cancelled
    unfoldable pub sync_net :
        Option Health → Bool → Option (List (String × Bool)) → NetState → NetState
    unfolding current_net need_net_push after_push set_net_healthy
    sync_net health pushed probed n = elim (current_net n) [
      | none ↦ n
      | some desired ↦ elim health [
        | none ↦ set_net_healthy false n
        | some h ↦
            let marked : NetState = record n { applied_net = some desired } in
            if not (need_net_push n desired h)
            then after_push h probed n
            else if not pushed
            then set_net_healthy false n
            else after_push h probed marked
      ]
    ]
