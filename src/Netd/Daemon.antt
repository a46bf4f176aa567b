-- ===== src/Netd/Daemon.antt =====
-- internal/netd/server.go, vip.go and probes.go: the state of klite-net and its calls. The kernel's
-- address list, the dials and the clock are arguments; a call holds its lock, so it is one step.
use k_lite.Common.{
  Bool, List, Map, Option, String, [], if◌then◌else◌, insert, keep, map, none, not, some, sort_by,
  true, ℕ, ◌%◌, ◌&&◌, ◌++◌, ◌+◌, ◌||◌, ◌∷◌,
}
use k_lite.Netd.Zone.{ConfigFault, NetConfig, ProbeAddress, fault, parse_config, parsed}
use k_lite.Netd.{QueryEntry, QueryLog, since}
use k_lite.Controller.Pools.{is_used}
use k_lite.Controller.Vip.{in_pool}
use k_lite.Common.Int.{ℤ}
use k_lite.Net.{NetDesired}

pub record ProbeState : Type 0 where
  pub state_instance : String
  pub state_ip : String
  pub state_port : ℤ
  pub ready : Bool

pub record Daemon : Type 0 where
  pub config : NetConfig
  pub last_serial : ℕ
  pub vips_bound : ℕ
  pub probe_states : Map ProbeState
  pub queries : QueryLog

-- An address on the interface, with whether its mask is full.
abbrev pub Held : Type 0
Held = List (ℕ × Bool)

-- The full-mask addresses of the pool: all that a reconcile may touch.
unfoldable pub have_of : Held → List ℕ
have_of [] = []
have_of ((ip, full) ∷ held) =
    let rest = have_of held in if not full || not (in_pool ip) then rest else ip ∷ rest

module _ (can_add can_delete : ℕ → Bool) where
  -- The loop over the wanted addresses: how many are bound, and those added.
  unfoldable pub add_wanted : List ℕ → List ℕ → ℕ × List ℕ
  add_wanted have [] = (0, [])
  add_wanted have (ip ∷ want) =
      let (bound, added) = add_wanted have want in
      if is_used have ip
      then (bound + 1, added)
      else if can_add ip
      then (bound + 1, ip ∷ added)
      else (bound, added)

  -- The addresses that the second loop takes off the interface.
  unfoldable pub deleted_vips : List ℕ → List ℕ → List ℕ
  deleted_vips have want = keep (λ ip. not (is_used want ip) && can_delete ip) have

  -- bindVIPs: the addresses afterwards, and how many wanted ones are bound
  unfoldable pub bind_vips : Held → List ℕ → Held × ℕ
  unfolding have_of add_wanted deleted_vips
  bind_vips held want =
      let have = have_of held in
      let (bound, added) = add_wanted have want in
      let gone = deleted_vips have want in
      (
        keep (λ (a : ℕ × Bool). not (a.1 && is_used gone (a.0))) held
            ++ map (λ (ip : ℕ). (ip, true)) added,
        bound,
      )

  module _ (to_lower : String → String) (parse_ip : String → Option (Option ℕ)) where
    -- ApplyConfig: the fault, the daemon and the interface
    unfoldable pub apply_config : NetDesired → Daemon → Held → Option ConfigFault × Daemon × Held
    unfolding bind_vips parse_config
    apply_config net d held =
        let serial = (d.last_serial + 1) % 4294967296 in
        let counted = record d { last_serial = serial } in
        elim (parse_config to_lower parse_ip net serial) [
          | fault f ↦ (some f, counted, held)
          | parsed cfg ↦
              let (after, bound) = bind_vips held cfg.vip_list in
              (none, record counted { config = cfg; vips_bound = bound }, after)
        ]

-- The results of a sweep: the last one of an instance stays.
unfoldable pub swept : (String → ℤ → Bool) → List ProbeAddress → Map ProbeState → Map ProbeState
swept dial [] m = m
swept dial (t ∷ ts) m = swept dial ts (
    insert t.probed_instance
      (record {
        state_instance = t.probed_instance;
        state_ip = t.probed_ip;
        state_port = t.probed_port;
        ready = dial t.probed_ip t.probed_port;
      })
      m)

-- sweep; a cancelled one keeps the results of the last
unfoldable pub sweep : Bool → (String → ℤ → Bool) → Daemon → Daemon
unfolding swept
sweep cancelled dial d =
    if cancelled then d else record d { probe_states = swept dial d.config.targets [] }

-- Probes: the latest result per instance, by name
unfoldable pub probes : Daemon → List ProbeState
probes d =
    map (λ (e : String × ProbeState). e.1)
      (sort_by (λ (e : String × ProbeState). e.0) d.probe_states)

-- RecentQueries
unfoldable pub recent_queries : ℕ → ℕ → Daemon → List QueryEntry
recent_queries now since_unix_ms d = since now since_unix_ms d.queries
