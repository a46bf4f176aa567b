-- ===== src/Store/Examples.antt =====
-- A store with one instance, and the store theorems at it.
use k_lite.Common.{List, [], arith, erase, insert, lookup, none, refl, some, ◌+◌, ◌∷◌, ◌≡◌, ◌⊎◌}
use k_lite.Common.Int.{pos}
use k_lite.Object.Types.{
  Container, Instance, Meta, empty_instance_status, empty_meta, instance_object, ready,
}
use k_lite.Object.Registry.{instance_kind, kind_of, meta_of, with_meta}
use k_lite.Store.{
  Entry, Memory, admit, commit, conflict, delete, delete_if_revision, empty_memory, get, ok, put,
  put_as, set_bucket, valid_name,
}
use k_lite.Store.Changes.{Change, IsBounded, Reach-IsBounded, here, next, wrote}
use k_lite.Store.Laws.{get-put, put_error}
use k_lite.Store.Stale.{stale_delete, stale_put}
use k_lite.Store.History.{Call, delete_call, put_call, run_calls-lookup_old}

abbrev pub plain_container : Container
plain_container = record {
  container_name = "main";
  image = "app";
  env = [];
  ports = [];
  readiness_probe = none;
}

abbrev pub serving_instance : Instance
serving_instance = record {
  meta = record empty_meta { name = "web-1"; uid = "u"; created_unix = 5 };
  spec = record {
    workload = "web";
    node = "n1";
    container = plain_container;
    template_hash = "h";
    drain = none;
  };
  status = some (record empty_instance_status { phase = ready });
}

abbrev other_instance : Instance
other_instance = record serving_instance { meta = record empty_meta { name = "web-2" } }

abbrev pub serving_entry : Entry
serving_entry = record { obj = instance_object serving_instance; rev = 1 }

abbrev pub one_instance : Memory
one_instance = record {
  rev = 1;
  uid = 1;
  objs = set_bucket empty_memory instance_kind (insert "web-1" serving_entry []);
}

pub empty_memory-IsBounded : IsBounded empty_memory
unfolding lookup
empty_memory-IsBounded = record {
  below = λ k name e h. absurd (cc h);
  positive = λ k name e h. absurd (cc h);
  filed = λ k name e h. absurd (cc h);
}

filled : Change empty_memory one_instance
unfolding kind_of meta_of
filled = wrote instance_kind "web-1" serving_entry (refl, refl) refl refl refl

pub one_instance-IsBounded : IsBounded one_instance
one_instance-IsBounded = Reach-IsBounded (next here filled) empty_memory-IsBounded

put_error_example : (put 9 (instance_object serving_instance) (pos 4) one_instance).1 ≡ one_instance
unfolding put put_as admit commit valid_name kind_of meta_of lookup insert
put_error_example =
    put_error 9 (instance_object serving_instance) (pos 4) one_instance conflict refl

get-put_example :
    let m' = (put 9 (instance_object serving_instance) (pos 1) one_instance).1 in
    (2 ≡ one_instance.rev + 1)
    × ((meta : Meta) × (get instance_kind "web-1" m'
          ≡ ok (with_meta meta (instance_object serving_instance), 2))
        × (meta.name ≡ "web-1")
        × (meta.labels ≡ [])
        × (meta.resource_version ≡ 2))
unfolding put put_as admit commit valid_name kind_of meta_of lookup insert
get-put_example =
    get-put instance_kind 9 (instance_object serving_instance) (pos 1) one_instance
      (put 9 (instance_object serving_instance) (pos 1) one_instance).1 2 refl refl

-- Two writes of another instance, a delete of it, and a write that lost its race.
abbrev other_calls : List Call
other_calls =
    put_call 9 (instance_object other_instance) (pos 0)
    ∷ put_call 10 (instance_object other_instance) (pos 2)
    ∷ delete_call instance_kind "web-2"
    ∷ put_call 11 (instance_object serving_instance) (pos 4)
    ∷ []

run_calls-lookup_old_example : lookup "web-1" (one_instance.objs instance_kind) ≡ some serving_entry
unfolding put put_as admit commit delete valid_name kind_of meta_of lookup insert erase
run_calls-lookup_old_example =
    run_calls-lookup_old other_calls one_instance instance_kind "web-1" serving_entry (omega arith)
      refl

stale_delete_example :
    let after = (delete_if_revision instance_kind "web-1" (pos 1) one_instance).1 in
    (after ≡ one_instance)
    ⊎ (lookup "web-1" (one_instance.objs instance_kind) ≡ some serving_entry)
      × (lookup "web-1" (after.objs instance_kind) ≡ none)
unfolding lookup insert
stale_delete_example =
    stale_delete instance_kind "web-1" serving_entry one_instance one_instance
      one_instance-IsBounded refl here

stale_put_example : lookup "web-1" (one_instance.objs instance_kind) ≡ some serving_entry
unfolding put put_as admit commit valid_name kind_of meta_of lookup insert
stale_put_example =
    stale_put instance_kind 9 (instance_object serving_instance) serving_entry 2 one_instance
      one_instance (put 9 (instance_object serving_instance) (pos 1) one_instance).1
      one_instance-IsBounded refl refl (omega arith) here refl
