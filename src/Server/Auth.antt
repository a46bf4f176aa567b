-- ===== src/Server/Auth.antt =====
-- internal/server/auth.go: who may call what, and the binding of an xDS stream to a node. A call's
-- identity is what the TLS session and the metadata carry: `peer` is the node that the verified
-- client certificate names (ca.NodeFromCert), and `headers` are the authorization values.
use k_lite.Common.{
  Bool, List, Option, String, [], false, if◌then◌else◌, is_some, none, not, some, true, ◌&&◌, ◌==◌,
  ◌||◌, ◌∷◌,
}
use k_lite.Server.Cluster.{Code, Reply, permission_denied, replied, status_code, unauthenticated}

pub data CallerPrincipal : Type 0 where
  anonymous admin : CallerPrincipal
  node_principal : String → CallerPrincipal

pub record Caller : Type 0 where
  pub peer : Option String
  pub headers : List String

abbrev pub register_method : String
register_method = "/klite.v1.AgentService/Register"

abbrev pub xds_prefix : String
xds_prefix = "/envoy.service."

module _ (cut_prefix : String → String → Option String) where
  -- bearerToken: the first value that is a bearer token
  unfoldable pub bearer_token : List String → String
  bearer_token [] = ""
  bearer_token (v ∷ vs) = elim (cut_prefix v "Bearer ") [ none ↦ bearer_token vs | some t ↦ t ]

  unfoldable pub principal_of : String → Caller → CallerPrincipal
  unfolding bearer_token
  principal_of admin_token c = elim c.peer [
    | some node ↦ node_principal node
    | none ↦
        if not (admin_token == "") && bearer_token c.headers == admin_token
        then admin
        else anonymous
  ]

  -- denied
  abbrev pub denied : CallerPrincipal → Code
  denied anonymous = unauthenticated
  denied _ = permission_denied

  abbrev pub is_node_principal : CallerPrincipal → Bool
  is_node_principal (node_principal n) = true
  is_node_principal _ = false

  abbrev pub is_admin : CallerPrincipal → Bool
  is_admin admin = true
  is_admin _ = false

  abbrev pub has_prefix : String → String → Bool
  has_prefix s prefix = is_some (cut_prefix s prefix)

  -- The switch of authorize.
  unfoldable pub admitted : String → CallerPrincipal → Reply CallerPrincipal
  admitted method p =
      if method == register_method
      then replied p
      else if has_prefix method "/klite.v1.AgentService/" || has_prefix method xds_prefix
      then if is_node_principal p then replied p else status_code (denied p)
      else if has_prefix method "/klite.v1.ClusterService/"
      then if is_admin p then replied p else status_code (denied p)
      else status_code permission_denied

  unfoldable pub authorize : String → Caller → String → Reply CallerPrincipal
  unfolding principal_of admitted
  authorize admin_token c method = admitted method (principal_of admin_token c)

-- requireNodeMatch
unfoldable pub require_node_match : CallerPrincipal → String → Option Code
require_node_match (node_principal p) node =
    if not (p == node) then some permission_denied else none
require_node_match _ node = none

-- xdsBoundStream.RecvMsg on a message that names a node: the refusal, and whether the stream is bound
unfoldable pub recv_msg : String → Bool → String → Option Code × Bool
recv_msg node bound id =
    if id == "" && bound
    then (none, bound)
    else if id == ""
    then (some permission_denied, bound)
    else if not (id == node)
    then (some permission_denied, bound)
    else (none, true)

-- The messages that a stream lets through to the handler, until one is refused.
unfoldable pub recv_all : String → Bool → List String → List String
unfolding recv_msg
recv_all node bound [] = []
recv_all node bound (id ∷ ids) =
    let rest = recv_all node (recv_msg node bound id).1 ids in
    elim (recv_msg node bound id).0 [ none ↦ id ∷ rest | some c ↦ [] ]
