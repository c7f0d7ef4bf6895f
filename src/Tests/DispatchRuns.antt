-- ===== src/Tests/DispatchRuns.antt =====
-- Runs of the lookup of pkg/dispatch, with a Redis that knows one device and fails for the others.
use compkg.Common.{◌≡◌, refl, inr, true, some, none, [], ◌∷◌, if◌then◌else◌}
use compkg.Common.Text.{same_text}
use compkg.Dispatch.{
  Backend, value, redis_error, lookup_device_node, lookup_node_from_raw, is_node_alive,
}
use compkg.Dispatch.Found.{Sound, lookup_device_node-Sound}

-- The device "d" has the plain address "n"; every node is alive.
abbrev one_device : Backend
one_device = record {
  World = Unit;
  has_client = true;
  hget = λ key device w. if same_text device (100 ∷ []) then value (110 ∷ []) else redis_error;
  exists = λ key w. some 1;
  trim_space = λ s. s;
  decode_list = λ s. none;
  decode_text = λ s. none;
  decode_schema = λ s. none;
  decode_single = λ s. none;
  decode_array = λ s. none;
}

found_run : lookup_device_node one_device (107 ∷ []) (100 ∷ []) tt ≡ inr (110 ∷ [])
unfolding lookup_device_node lookup_node_from_raw is_node_alive
found_run = refl

-- The failure for another device is answered as no node.
failed_run : lookup_device_node one_device (107 ∷ []) (101 ∷ []) tt ≡ inr []
unfolding lookup_device_node
failed_run = refl

lookup_device_node-Sound_example :
    Sound one_device tt (lookup_device_node one_device (107 ∷ []) (101 ∷ []) tt)
lookup_device_node-Sound_example = lookup_device_node-Sound one_device (107 ∷ []) (101 ∷ []) tt refl
