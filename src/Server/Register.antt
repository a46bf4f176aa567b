-- ===== src/Server/Register.antt =====
-- internal/server/agent.go: Register, ReportStatus and the network layout of a node.
use k_lite.Common.{
  Bool, List, Option, String, concat, eqb, false, if◌then◌else◌, none, not, some, suc, zero, ℕ,
  ◌&&◌, ◌+◌, ◌==◌,
}
use k_lite.Server.Agent.{
  StatusUpdate, Yield, advertise_ip, apply_statuses, clear, free_node_index, heal_node_index,
  stamp_node, yield_error, yield_index_collision, yield_panic, yielded,
}
use k_lite.Store.{Error, Memory, Result, conflict, decimal, err, get, list, not_found, ok, put}
use k_lite.Server.Cluster.{
  Reply, aborted, finish, invalid_argument, panicked, permission_denied, replied, status_code,
  store_status, unauthenticated, unimplemented, with_node_status,
}
use k_lite.Object.Types.{Node, NodeStatus, Object, node_object, node_ready, node_status}
use k_lite.Common.Int.{pos, ℤ}
use k_lite.Controller.Ingress.{ingress_port_base, ingress_ports_per_node}
use k_lite.Server.Cas.{Turn, again, done, is_error, over, server_cas_retries}
use k_lite.Object.Envelopes.{nodes_in}
use k_lite.Object.Registry.{node_kind}
use k_lite.Server.Auth.{CallerPrincipal, node_principal, require_node_match}

pub record RegisterRequest : Type 0 where
  pub request_node : String
  pub cluster_token : String
  pub csr_pem : String
  pub request_address : String

pub record AgentConfig : Type 0 where
  pub config_token : String
  pub cluster_id : String
  pub net_admin_port_base : ℤ
  pub envoy_admin_port_base : ℤ
  pub infra_ip_base : ℕ
  pub config_ingress_base : ℤ
  pub net_image : String
  -- CA.SignNodeCSR, when the server has a CA, whose certificate is `ca_pem`
  pub sign_csr : Option (String → String → Option String)
  pub ca_pem : String

pub record NetBootstrap : Type 0 where
  pub subnet : String
  pub klite_net_ip : String
  pub vip_range : String
  pub bootstrap_index : ℕ
  pub bootstrap_cluster : String
  pub bootstrap_net_admin : ℤ
  pub bootstrap_envoy_admin : ℤ
  pub bootstrap_ingress : ℤ
  pub bootstrap_ports : ℕ
  pub bootstrap_image : String

pub record Registered : Type 0 where
  pub bootstrap : NetBootstrap
  pub cert_pem : String
  pub registered_ca : String

-- netBootstrap
unfoldable pub net_bootstrap : AgentConfig → ℕ → NetBootstrap
net_bootstrap cfg idx =
    let base = if eqb cfg.infra_ip_base 0 then 10 else cfg.infra_ip_base in
    record {
      subnet = "10.44.0.0/16";
      klite_net_ip = concat "10.44.0." (decimal (base + idx));
      vip_range = "10.44.64.0/18";
      bootstrap_index = idx;
      bootstrap_cluster = cfg.cluster_id;
      bootstrap_net_admin = cfg.net_admin_port_base;
      bootstrap_envoy_admin = cfg.envoy_admin_port_base;
      bootstrap_ingress = ingress_port_base cfg.config_ingress_base;
      bootstrap_ports = ingress_ports_per_node;
      bootstrap_image = cfg.net_image;
    }

abbrev certified_for : CallerPrincipal → String → Bool
certified_for (node_principal p) node = p == node
certified_for _ node = false

abbrev signed : Option String → Reply String
signed none = status_code invalid_argument
signed (some cert) = replied cert

-- admit: the certificate to hand out, or ""
unfoldable pub admit_node : AgentConfig → CallerPrincipal → RegisterRequest → Reply String
admit_node cfg p req =
    if not (certified_for p req.request_node) && not (req.cluster_token == cfg.config_token)
    then status_code unauthenticated
    else if req.request_node == ""
    then status_code invalid_argument
    else if req.csr_pem == ""
    then replied ""
    else elim cfg.sign_csr [
      | none ↦ status_code unimplemented
      | some sign ↦ signed (sign req.csr_pem req.request_node)
    ]

-- The index that a registration gives a node, from the listing it reads if the node has none.
unfoldable pub index_for : NodeStatus → List Node → ℕ
unfolding free_node_index
index_for st nodes =
    let free = free_node_index nodes in if eqb st.node_index 0 then free else st.node_index

module _ (now : ℕ) (others : ℕ → Memory → Memory) where
  abbrev after_yield : ℕ → Yield × Memory → Turn (Reply ℕ) × Memory
  after_yield idx (clear, m) = (over (done (replied idx)), m)
  after_yield idx (yielded, m) = (again, m)
  after_yield idx (yield_error e, m) = (over (done (status_code (store_status e))), m)
  after_yield idx (yield_panic, m) = (over (done panicked), m)

  -- What follows the write of the registration.
  abbrev after_put : ℕ → String → Bool → ℕ → Result ℕ × Memory → Turn (Reply ℕ) × Memory
  after_put i name fresh idx (ok r, m) =
      let checked = after_yield idx (yield_index_collision now others i name idx m) in
      if fresh then checked else (over (done (replied idx)), m)
  after_put i name fresh idx (err e, m) =
      (if is_error e conflict then again else over (done (status_code (store_status e))), m)

  unfoldable pub registered_status : String → NodeStatus → ℕ → NodeStatus
  registered_status addr st idx =
      let stamped_status : NodeStatus = record st {
        node_index = idx;
        last_heartbeat_unix = now;
        phase = node_ready;
      } in
      if addr == "" then stamped_status else record stamped_status { advertise_address = addr }

  unfoldable pub register_object :
      ℕ → String → String → Memory → Object → ℕ → Turn (Reply ℕ) × Memory
  unfolding index_for registered_status yield_index_collision
  register_object i name addr n (node_object node) rev =
      let st = node_status node in
      let m = others (i + 1) n in
      let idx = index_for st (nodes_in (list node_kind m).0) in
      let registered = with_node_status node (registered_status addr st idx) in
      after_put (i + 3) name (eqb st.node_index 0) idx
        (put now registered (pos rev) (others (i + 2) m))
  register_object i name addr n o rev = (over (done panicked), n)

  abbrev refuse : Error → Reply ℕ
  refuse not_found = status_code permission_denied
  refuse e = status_code (store_status e)

  unfoldable pub register_turn : ℕ → String → String → Memory → Turn (Reply ℕ) × Memory
  unfolding register_object
  register_turn i name addr m = elim (get node_kind name (others i m)) [
    | err e ↦ (over (done (refuse e)), others i m)
    | ok (o, rev) ↦ register_object i name addr (others i m) o rev
  ]

  unfoldable pub register_loop : ℕ → ℕ → String → String → Memory → Reply ℕ × Memory
  unfolding register_turn
  register_loop zero i name addr m = (status_code aborted, m)
  register_loop (suc tries) i name addr m =
      let r = register_turn i name addr m in
      elim r.0 [ over a ↦ (finish a, r.1) | again ↦ register_loop tries (i + 16) name addr r.1 ]

  module _ (is_routable : String → Bool) (cfg : AgentConfig) where
    abbrev answered_with : String → Reply ℕ × Memory → Reply Registered × Memory
    answered_with cert (replied idx, m) = (
      replied (record {
        bootstrap = net_bootstrap cfg idx;
        cert_pem = cert;
        registered_ca = if cert == "" then "" else cfg.ca_pem;
      }),
      m,
    )
    answered_with cert (status_code c, m) = (status_code c, m)
    answered_with cert (panicked, m) = (panicked, m)

    unfoldable pub register : CallerPrincipal → RegisterRequest → Memory → Reply Registered × Memory
    unfolding admit_node register_loop advertise_ip
    register p req m = elim (admit_node cfg p req) [
      | status_code c ↦ (status_code c, m)
      | panicked ↦ (panicked, m)
      | replied cert ↦ answered_with cert (
          register_loop server_cas_retries 0 req.request_node
            (advertise_ip is_routable req.request_address) m)
    ]

    abbrev healed_after : String → ℕ → Reply ℕ × Memory → Reply (Unit {0}) × Memory
    healed_after name reported (replied idx, m) =
        (replied tt, heal_node_index now others name idx reported m)
    healed_after name reported (status_code c, m) = (status_code c, m)
    healed_after name reported (panicked, m) = (panicked, m)

    unfoldable pub report_status :
        CallerPrincipal
        → String
        → List StatusUpdate
        → String
        → ℕ
        → Memory
        → Reply (Unit {0}) × Memory
    unfolding apply_statuses stamp_node heal_node_index advertise_ip
    report_status p name updates addr reported m =
        if name == "" then (status_code invalid_argument, m) else elim (require_node_match p name) [
          | some c ↦ (status_code c, m)
          | none ↦ healed_after name reported (
              stamp_node now others name (advertise_ip is_routable addr)
                (apply_statuses now others name updates m))
        ]
