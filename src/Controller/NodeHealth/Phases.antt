-- ===== src/Controller/NodeHealth/Phases.antt =====
-- The phases of a node, as phaseTransition of internal/controller/node.go moves them.
use k_lite.Common.{
  Bool, Bool-cases, arith, eqb, false, inl, inr, not, true, ℕ, ◌&&◌, ◌||◌, ◌≡◌, ◌≢◌, ◌⊎◌,
}
use k_lite.Common.Int.{ltb_ℤ, pos, ℤ}
use k_lite.Object.Types.{
  NodePhase, NodeStatus, is_node_phase, node_draining, node_ready, node_unspecified, not_ready,
}
use k_lite.Controller.NodeHealth.{heartbeat_timeout, phase_transition, transition}

-- The moves that the life of a node allows: a lost node, a drain that a pending deletion asks for,
-- and a drain that is done, which leaves the node cordoned.
pub data Moved (silence : ℤ) (count : ℕ) (pending_delete : Bool) (st : NodeStatus)
    : NodeStatus → Bool → Type 0 where
  lost :
      ltb_ℤ (pos heartbeat_timeout) silence ≡ true
      → (st.phase ≡ node_ready) ⊎ (st.phase ≡ node_draining)
      → Moved silence count pending_delete st (record st { phase = not_ready }) true
  drained :
      st.phase ≡ node_draining
      → count ≡ 0
      → Moved silence count pending_delete st (record st { phase = node_ready }) true
  deleting :
      pending_delete ≡ true
      → (st.phase ≡ node_ready) ⊎ (st.unschedulable ≡ false)
      → Moved silence count pending_delete st
          (record st { phase = node_draining; unschedulable = true })
          true
  rests :
      (ltb_ℤ (pos heartbeat_timeout) silence ≡ true
        → (st.phase ≢ node_ready) × (st.phase ≢ node_draining))
      → (pending_delete ≡ true → (st.phase ≢ node_ready) × (st.unschedulable ≡ true))
      → (st.phase ≡ node_draining → count ≢ 0)
      → Moved silence count pending_delete st st false

phase_is_draining : (p : NodePhase) → is_node_phase p node_draining ≡ true → p ≡ node_draining
phase_is_draining p h = ground arith

ready_or_draining :
    (p : NodePhase)
    → (is_node_phase p node_ready || is_node_phase p node_draining) ≡ true
    → (p ≡ node_ready) ⊎ (p ≡ node_draining)
ready_or_draining p h = ground arith

ready_or_open :
    (st : NodeStatus)
    → (is_node_phase st.phase node_ready || not st.unschedulable) ≡ true
    → (st.phase ≡ node_ready) ⊎ (st.unschedulable ≡ false)
ready_or_open st h = ground arith

not_ready_or_draining :
    (p : NodePhase)
    → (is_node_phase p node_ready || is_node_phase p node_draining) ≡ false
    → (p ≢ node_ready) × (p ≢ node_draining)
not_ready_or_draining p h = ground arith

neither :
    (st : NodeStatus)
    → (is_node_phase st.phase node_ready || not st.unschedulable) ≡ false
    → (st.phase ≢ node_ready) × (st.unschedulable ≡ true)
neither st h = ground arith

busy :
    (st : NodeStatus) (count : ℕ)
    → st.phase ≡ node_draining
    → (is_node_phase st.phase node_draining && eqb count 0) ≡ false
    → count ≢ 0
busy st count h k = ground arith

-- phaseTransition makes one of the allowed moves, and reports a change exactly when it makes one.
pub phase_transition-Moved :
    (st : NodeStatus) (silence : ℤ) (count : ℕ) (pending_delete : Bool)
    → let r = phase_transition st silence count pending_delete in
      Moved silence count pending_delete st r.0 r.1
unfolding phase_transition transition
phase_transition-Moved st silence count pending_delete =
    let is_ready = is_node_phase st.phase node_ready in
    let is_draining = is_node_phase st.phase node_draining in
    elim (Bool-cases (ltb_ℤ (pos heartbeat_timeout) silence && (is_ready || is_draining))) [
      | inl a ↦ rw a (lost (ground arith) (ready_or_draining st.phase (ground arith)))
      | inr a ↦ elim (Bool-cases (pending_delete && (is_ready || not st.unschedulable))) [
        | inl b ↦ rw (a, b) (deleting (ground arith) (ready_or_open st (ground arith)))
        | inr b ↦ elim (Bool-cases (is_draining && eqb count 0)) [
          | inl c ↦
              rw (a, b, c) (drained (phase_is_draining st.phase (ground arith)) (ground arith))
          | inr c ↦
              rw (a, b, c)
                (rests (λ q. not_ready_or_draining st.phase (ground arith))
                  (λ q. neither st (ground arith)) (λ q. busy st count q c))
        ]
      ]
    ]

settles :
    (st : NodeStatus) (p : NodePhase) (u late pending_delete empty : Bool)
    → (pending_delete && empty) ≡ false
    → let go : NodeStatus → NodeStatus = λ s. (transition s late pending_delete empty).0 in
      (transition
        (go (go (go (record st { phase = p; unschedulable = u }))))
        late
        pending_delete
        empty).1
      ≡ false
unfolding transition
settles st node_unspecified u late pending_delete empty h = ground arith
settles st node_ready u late pending_delete empty h = ground arith
settles st not_ready u late pending_delete empty h = ground arith
settles st node_draining u late pending_delete empty h = ground arith

-- The phase does not flap: under the same silence and instance count, three passes bring any status
-- to one that the next pass leaves alone, unless the node is empty and its deletion is pending, in
-- which case reconcileNode deletes it instead.
pub phase_transition-settles :
    (st : NodeStatus) (silence : ℤ) (count : ℕ) (pending_delete : Bool)
    → (pending_delete && eqb count 0) ≡ false
    → let go : NodeStatus → NodeStatus = λ s. (phase_transition s silence count pending_delete).0 in
      (phase_transition (go (go (go st))) silence count pending_delete).1 ≡ false
unfolding phase_transition transition
phase_transition-settles st silence count pending_delete h =
    settles st st.phase st.unschedulable (ltb_ℤ (pos heartbeat_timeout) silence) pending_delete
      (eqb count 0) h
