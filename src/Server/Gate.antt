-- ===== src/Server/Gate.antt =====
-- What the gate of internal/server/auth.go lets through.
use k_lite.Common.{
  Bool, Bool-cases, List, Option, Option-cases, String, [], any, ap, arith, eq_iff, false, inl, inr,
  none, not, refl, some, true, ◌&&◌, ◌==◌, ◌||◌, ◌∷◌, ◌≡◌, ◌⊎◌,
}
use k_lite.Server.Auth.{
  Caller, CallerPrincipal, admitted, authorize, bearer_token, has_prefix, is_admin,
  is_node_principal, principal_of, recv_all, recv_msg, register_method, xds_prefix,
}
use k_lite.Server.Cluster.{replied}

-- A message names another node than that of the certificate.
abbrev pub is_foreign : String → String → Bool
is_foreign node id = not (id == node || id == "")

recv_msg_named :
    (node id : String) (bound : Bool)
    → (recv_msg node bound id).0 ≡ none
    → (is_foreign node id ≡ false)
      × ((recv_msg node bound id).1 ≡ true)
      × ((bound ≡ true) ⊎ (id ≡ node))
unfolding recv_msg
recv_msg_named node id bound h = elim (Bool-cases (id == "" && bound)) [
  | inl e ↦ (ground (arith, e), ground (arith, e), ground (arith, e))
  | inr e ↦ elim (Bool-cases (id == "")) [
    | inl f ↦ absurd (cc (rw (e, f) at h))
    | inr f ↦ elim (Bool-cases (id == node)) [
      | inl g ↦ (ground (arith, g), rw (e, f, g) refl, inr ((eq_iff id node).0 g))
      | inr g ↦ absurd (cc (rw (e, f, g) at h))
    ]
  ]
]

all_own :
    (node : String) (bound : Bool) (ids : List String)
    → any (is_foreign node) (recv_all node bound ids) ≡ false
unfolding recv_all
all_own node bound [] = refl
all_own node bound (id ∷ ids) = elim (Option-cases (recv_msg node bound id).0) [
  | inr (c, e) ↦ rw (e, recv_all) refl
  | inl e ↦
      let (own, nb, first) = recv_msg_named node id bound e in
      rw (e, recv_all) (ground (arith, own, all_own node (recv_msg node bound id).1 ids))
]

named_first : {a b : String} → (false ≡ true) ⊎ (a ≡ b) → a ≡ b
named_first (inl h) = absurd (cc h)
named_first (inr h) = h

-- The handler of an xDS stream sees only messages that name the node of the stream's certificate or
-- no node, and the first one that it sees, if any, names that node: for all sequences of messages.
pub recv_all_own :
    (node : String) (ids : List String)
    → (any (is_foreign node) (recv_all node false ids) ≡ false)
      × ((recv_all node false ids ≡ [])
          ⊎ ((rest : List String) × (recv_all node false ids ≡ node ∷ rest)))
unfolding recv_all
recv_all_own node [] = (refl, inl refl)
recv_all_own node (id ∷ ids) = (
  all_own node false (id ∷ ids),
  elim (Option-cases (recv_msg node false id).0) [
    | inr (c, e) ↦ inl (rw (e, recv_all) refl)
    | inl e ↦
        let (own, nb, first) = recv_msg_named node id false e in
        inr (
          recv_all node (recv_msg node false id).1 ids,
          rw (e, recv_all)
              (ap (λ (y : String). y ∷ recv_all node (recv_msg node false id).1 ids)
                (named_first first)),
        )
  ],
)

module _ (cut_prefix : String → String → Option String) where
  -- Why a call is let through.
  pub data IsEntitled (admin_token : String) (c : Caller) (method : String) : Type 0 where
    registers : method ≡ register_method → IsEntitled admin_token c method
    certified :
        (node : String)
        → c.peer ≡ some node
        → (has_prefix cut_prefix method "/klite.v1.AgentService/"
            || has_prefix cut_prefix method xds_prefix)
          ≡ true
        → IsEntitled admin_token c method
    administers :
        c.peer ≡ none
        → (admin_token == "") ≡ false
        → bearer_token cut_prefix c.headers ≡ admin_token
        → has_prefix cut_prefix method "/klite.v1.ClusterService/" ≡ true
        → IsEntitled admin_token c method

  node_peer :
      (admin_token : String) (c : Caller)
      → is_node_principal cut_prefix (principal_of cut_prefix admin_token c) ≡ true
      → (node : String) × (c.peer ≡ some node)
  unfolding principal_of
  node_peer admin_token c h = elim (Option-cases c.peer) [
    | inr (n, e) ↦ (n, e)
    | inl e ↦ absurd (ground (arith, rw (e, principal_of) at h))
  ]

  admin_bearer :
      (admin_token : String) (c : Caller)
      → is_admin cut_prefix (principal_of cut_prefix admin_token c) ≡ true
      → (c.peer ≡ none)
        × ((admin_token == "") ≡ false)
        × (bearer_token cut_prefix c.headers ≡ admin_token)
  unfolding principal_of
  admin_bearer admin_token c h = elim (Option-cases c.peer) [
    | inr (n, e) ↦ absurd (cc (rw (e, principal_of) at h))
    | inl e ↦ elim (Bool-cases (admin_token == "")) [
      | inl f ↦ absurd (ground (arith, rw (e, f, principal_of) at h))
      | inr f ↦ elim (Bool-cases (bearer_token cut_prefix c.headers == admin_token)) [
        | inl g ↦ (e, f, (eq_iff _ _).0 g)
        | inr g ↦ absurd (ground (arith, rw (e, f, g, principal_of) at h))
      ]
    ]
  ]

  -- A call that the gate lets through is a registration, comes with a verified node certificate to a
  -- method of the agents or of xDS, or comes without one, with the bearer token of the admin, which
  -- is not empty, to a method of the cluster: for all callers, methods and tokens.
  pub authorize-IsEntitled :
      (admin_token : String) (c : Caller) (method : String) (p : CallerPrincipal)
      → authorize cut_prefix admin_token c method ≡ replied p
      → IsEntitled admin_token c method
  unfolding authorize admitted
  authorize-IsEntitled admin_token c method p h =
      let q = principal_of cut_prefix admin_token c in
      let agents =
        has_prefix cut_prefix method "/klite.v1.AgentService/"
        || has_prefix cut_prefix method xds_prefix in
      elim (Bool-cases (method == register_method)) [
        | inl e ↦ registers ((eq_iff method register_method).0 e)
        | inr e ↦ elim (Bool-cases agents) [
          | inl f ↦ elim (Bool-cases (is_node_principal cut_prefix q)) [
            | inl g ↦ let (node, peer) = node_peer admin_token c g in certified node peer f
            | inr g ↦ absurd (cc (rw (e, f, g) at h))
          ]
          | inr f ↦ elim (Bool-cases (has_prefix cut_prefix method "/klite.v1.ClusterService/")) [
            | inr g ↦ absurd (cc (rw (e, f, g) at h))
            | inl g ↦ elim (Bool-cases (is_admin cut_prefix q)) [
              | inl i ↦
                  let (peer, token, bearer) = admin_bearer admin_token c i in
                  administers peer token bearer g
              | inr i ↦ absurd (cc (rw (e, f, g, i) at h))
            ]
          ]
        ]
      ]
