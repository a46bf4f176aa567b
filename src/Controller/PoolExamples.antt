-- ===== src/Controller/PoolExamples.antt =====
-- The theorems on nodes, addresses and ports at concrete inputs.

use k_lite.Common.{
  Option, String, [], ap, arith, false, if◌then◌else◌, lookup, ltb, none, refl, some, suc, true,
  zero, ℕ, ◌∷◌, ◌≡◌, ◌≤◌, ◌⊎◌,
}
use k_lite.Common.Int.{negsuc, pos, ℤ}
use k_lite.Object.Types.{Node, NodeStatus, empty_meta, empty_node_status, node_ready}
use k_lite.Object.Registry.{instance_kind}
use k_lite.Store.{empty_memory}
use k_lite.Controller.Pools.{first_free}
use k_lite.Controller.NodeHealth.{phase_transition, reconcile_node, silence_of}
use k_lite.Controller.NodeHealth.Phases.{phase_transition-settles}
use k_lite.Controller.NodeHealth.Silence.{reconcile_node-keeps}
use k_lite.Controller.Vip.{allocate_vip_each, in_pool, is_host}
use k_lite.Controller.Vip.Distinct.{IsDistinct, allocate_vip_each-IsDistinct}
use k_lite.Controller.Ingress.{node_range}
use k_lite.Controller.Ingress.Ranges.{IsSlice, node_range-apart}

abbrev ready_status : NodeStatus
ready_status = record empty_node_status { phase = node_ready; last_heartbeat_unix = 100 }

abbrev quiet_node : Node
quiet_node = record {
  meta = record empty_meta { name = "n1"; resource_version = 3 };
  max_instances = pos 4;
  status = some ready_status;
}

phase_transition-settles_example :
    let go : NodeStatus → NodeStatus = λ s. (phase_transition s (pos 16) 2 true).0 in
    (phase_transition (go (go (go ready_status))) (pos 16) 2 true).1 ≡ false
phase_transition-settles_example = phase_transition-settles ready_status (pos 16) 2 true refl

reconcile_node-keeps_example :
    (reconcile_node 140 quiet_node 0 [] empty_memory).1.objs instance_kind ≡ []
unfolding silence_of
reconcile_node-keeps_example = reconcile_node-keeps 140 quiet_node 0 [] empty_memory (omega arith)

first_free_at : first_free is_host (2 ∷ 1 ∷ []) 4 0 ≡ some 3
unfolding first_free
first_free_at = refl

-- Addresses written in unary.
abbrev tally : ℕ → String
tally zero = String.[]
tally (suc n) = String.◌∷◌ "i" (tally n)

abbrev count_tally : String → ℕ
count_tally String.[] = 0
count_tally (String.◌∷◌ c s) = suc (count_tally s)

-- Only numbers of 32 bits are addresses.
abbrev read_tally : String → Option ℕ
read_tally s = let n = count_tally s in if ltb n 4294967296 then some n else none

count_tally-tally : (n : ℕ) → count_tally (tally n) ≡ n
count_tally-tally zero = refl
count_tally-tally (suc n) = ap (λ (x : ℕ). suc x) (count_tally-tally n)

read_tally-tally : (n : ℕ) → in_pool n ≡ true → read_tally (tally n) ≡ some n
read_tally-tally n h = ground (arith, count_tally-tally n)

empty-IsDistinct : IsDistinct read_tally [] empty_memory
unfolding lookup
empty-IsDistinct = record {
  seen = λ a e x h k. absurd (cc h);
  once = λ a b e f x h j k l. absurd (cc h);
}

allocate_vip_each-IsDistinct_example :
    let r = allocate_vip_each read_tally tally 0 (("c", "n1") ∷ ("c", "n2") ∷ []) [] empty_memory in
    IsDistinct read_tally r.1 r.2
allocate_vip_each-IsDistinct_example =
    allocate_vip_each-IsDistinct read_tally tally read_tally-tally 0
      (("c", "n1") ∷ ("c", "n2") ∷ []) [] empty_memory empty-IsDistinct

abbrev first_slice : ℤ × ℤ
first_slice = (pos 20000, pos 20032)

abbrev third_slice : ℤ × ℤ
third_slice = (pos 20064, pos 20096)

node_range-apart_example :
    IsSlice first_slice × IsSlice third_slice × ((20032 ≤ 20064) ⊎ (20096 ≤ 20000))
unfolding node_range
node_range-apart_example =
    node_range-apart (pos 20000) 1 3 first_slice third_slice (omega arith) (omega arith)
      (omega arith) (omega arith) refl refl (omega arith)

-- A base near the end of int32: the upper bound wraps, and the slice counts as one of the node's.
wrapped_slice : node_range (pos 2147483640) 1 ≡ some (pos 2147483640, negsuc 2147483623)
unfolding node_range
wrapped_slice = refl
