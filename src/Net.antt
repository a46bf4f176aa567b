-- ===== src/Net.antt =====
-- The wire form of a node's desired network state: NetDesired and its parts, as messages of
-- internal/gen/klitev1/netd.pb.go. The endpoints engine builds it; klite-net and Envoy consume it.
use k_lite.Common.{List, Map, String, []}
use k_lite.Common.Int.{ℤ}
use k_lite.Policy.{CompiledPolicy}

pub record ServiceVip : Type 0 where
  pub service : String
  pub vip : String
  pub port : ℤ
  pub target_port : ℤ

pub data EndpointHealth : Type 0 where
  health_unspecified health_ready health_draining : EndpointHealth

pub record Endpoint : Type 0 where
  pub ip : String
  pub port : ℤ
  pub node : String
  pub health : EndpointHealth
  pub ingress_port : ℤ
  pub machine_address : String

pub record EndpointGroup : Type 0 where
  pub service : String
  pub endpoints : List Endpoint

pub record ProbeTarget : Type 0 where
  pub instance_name : String
  pub ip : String
  pub port : ℤ

pub record IngressListener : Type 0 where
  pub service : String
  pub port : ℤ
  pub pod_ip : String
  pub target_port : ℤ

pub record NetDesired : Type 0 where
  pub services : List ServiceVip
  pub endpoints : List EndpointGroup
  pub policies : List CompiledPolicy
  pub ip_identity : Map String
  pub probe_targets : List ProbeTarget
  pub ingress_listeners : List IngressListener

abbrev pub empty_net : NetDesired
empty_net = record {
  services = [];
  endpoints = [];
  policies = [];
  ip_identity = [];
  probe_targets = [];
  ingress_listeners = [];
}
