-- ===== src/Dispatch/Found.antt =====
-- What the lookup of pkg/dispatch/router.go answers.
use compkg.Common.{
  ◌≡◌, ◌≢◌, refl, ◌⊎◌, inl, inr, Bool, true, false, not, ◌||◌, Bool-cases, Option, none, some, List,
  [], ◌∷◌, ◌==◌, if◌then◌else◌,
}
use compkg.Common.Text.{Text, same_text}
use compkg.Dispatch.{
  Backend, HGetResult, redis_nil, redis_error, value, is_node_alive, first_alive_node,
  lookup_node_from_raw, lookup_device_node, hget_failed, Answer, if_alive, of_list, of_text,
  of_schema, is_blank, is_nil, raw_of, is_error, schema_array, schema_single,
}

module _ (backend : Backend) where
  open backend use {World, hget, trim_space}

  -- No node, or one that is alive.
  abbrev pub Alive : World → Text → Type 0
  Alive w node = (node ≡ []) ⊎ (is_node_alive backend node w ≡ true)

  -- No error of HGet, and no node that is not alive.
  abbrev pub Sound : World → Answer backend → Type 0
  Sound w (inl e) = e ≢ hget_failed
  Sound w (inr node) = Alive w node

  first_alive_node-Alive :
      (addresses : List Text) (w : World) → Alive w (first_alive_node backend addresses w)
  unfolding first_alive_node
  first_alive_node-Alive [] w = inl refl
  first_alive_node-Alive (addr ∷ addresses) w =
      elim (Bool-cases (is_node_alive backend (trim_space addr) w)) [
        | inl alive ↦ rw alive (inr alive)
        | inr dead ↦ rw dead (first_alive_node-Alive addresses w)
      ]

  either-Sound :
      (b : Bool) (w : World) (x y : Answer backend)
      → Sound w x
      → Sound w y
      → Sound w (if b then x else y)
  either-Sound true w x y h k = h
  either-Sound false w x y h k = k

  if_alive-Sound : (addr : Text) (w : World) → Sound w (if_alive backend addr w)
  if_alive-Sound addr w = elim (Bool-cases (is_node_alive backend addr w)) [
    | inl alive ↦ rw alive (inr alive)
    | inr dead ↦ rw dead (inl refl)
  ]

  of_list-Sound : (o : Option (List Text)) (w : World) → Sound w (of_list backend o w)
  of_list-Sound none w = λ e. cc e
  of_list-Sound (some addresses) w = first_alive_node-Alive addresses w

  of_text-Sound : (o : Option Text) (w : World) → Sound w (of_text backend o w)
  of_text-Sound none w = λ e. cc e
  of_text-Sound (some addr) w = if_alive-Sound addr w

  of_schema-Sound : (o : Option Text) (raw : Text) (w : World) → Sound w (of_schema backend o raw w)
  of_schema-Sound none raw w = λ e. cc e
  of_schema-Sound (some schema) raw w =
      either-Sound (same_text schema schema_array) w _ _
        (of_list-Sound (backend.decode_array raw) w)
        (either-Sound (same_text schema schema_single) w _ _
          (of_text-Sound (backend.decode_single raw) w) (λ e. cc e))

  raw-Sound : (raw : Text) (w : World) → Sound w (lookup_node_from_raw backend raw w)
  unfolding lookup_node_from_raw
  raw-Sound [] w = inl refl
  raw-Sound (c ∷ raw) w =
      either-Sound (c == 91) w _ _ (of_list-Sound (backend.decode_list (c ∷ raw)) w) (
        either-Sound (c == 123) w _ _
          (of_schema-Sound (backend.decode_schema (c ∷ raw)) (c ∷ raw) w)
          (either-Sound (c == 34) w _ _ (of_text-Sound (backend.decode_text (c ∷ raw)) w)
            (if_alive-Sound (c ∷ raw) w)))

  result-Sound :
      (result : HGetResult) (w : World)
      → trim_space [] ≡ []
      → Sound w (
          if is_nil result || is_blank (trim_space (raw_of result))
          then inr []
          else if is_error result
          then inl hget_failed
          else lookup_node_from_raw backend (trim_space (raw_of result)) w)
  result-Sound (value raw) w h =
      either-Sound (is_blank (trim_space raw)) w _ _ (inl refl) (raw-Sound (trim_space raw) w)
  result-Sound redis_nil w h = inl refl
  result-Sound redis_error w h = rw h (inl refl)

  -- A lookup answers no node, a node that is alive, or an error of the value of the route; if trimming the
  -- empty text leaves it empty, it never gives the error of HGet, also if HGet failed.
  pub lookup_device_node-Sound :
      (route_key device_no : Text) (w : World)
      → trim_space [] ≡ []
      → Sound w (lookup_device_node backend route_key device_no w)
  unfolding lookup_device_node
  lookup_device_node-Sound route_key device_no w h =
      either-Sound
        (not backend.has_client
          || (is_blank (trim_space route_key) || is_blank (trim_space device_no)))
        w _ _ (inl refl) (result-Sound (hget route_key device_no w) w h)
