-- ===== src/Dispatch.antt =====
-- The lookup of the node of a device, pkg/dispatch/router.go. Text is its bytes. Redis, encoding/json
-- and strings.TrimSpace are a parameter, `Backend`; the calls only read, and see one state of Redis.
pub mod Found
use compkg.Common.{
  ℕ, ◌⊎◌, inl, inr, Bool, true, false, not, ◌||◌, ◌&&◌, Option, none, some, List, [], ◌∷◌, ◌++◌,
  ltb, ◌==◌, if◌then◌else◌,
}
use compkg.Common.Text.{Text, same_text}

-- What HGet answers: a value, redis.Nil, or another error. With an error the value is empty.
pub data HGetResult : Type 0 where
  value : Text → HGetResult
  redis_nil : HGetResult
  redis_error : HGetResult

pub record Backend : Type 1 where
  pub World : Type 0
  -- Whether the client is not nil.
  pub has_client : Bool
  pub hget : Text → Text → World → HGetResult
  -- The number that Exists answers, or an error.
  pub exists : Text → World → Option ℕ
  pub trim_space : Text → Text
  pub decode_list : Text → Option (List Text)
  pub decode_text : Text → Option Text
  pub decode_schema : Text → Option Text
  -- The address or the addresses of a routeValueSingle and a routeValueArray.
  pub decode_single : Text → Option Text
  pub decode_array : Text → Option (List Text)

pub data LookupError : Type 0 where
  hget_failed decode_failed unknown_version : LookupError

abbrev pub is_blank : Text → Bool
is_blank [] = true
is_blank (c ∷ s) = false

-- "iot:nodes:alive:"
abbrev alive_prefix : Text
alive_prefix =
    105 ∷ 111 ∷ 116 ∷ 58 ∷ 110 ∷ 111 ∷ 100 ∷ 101 ∷ 115 ∷ 58 ∷ 97 ∷ 108 ∷ 105 ∷ 118 ∷ 101 ∷ 58 ∷ []

-- "addrs.v1" and "addr.v1"
abbrev pub schema_array : Text
schema_array = 97 ∷ 100 ∷ 100 ∷ 114 ∷ 115 ∷ 46 ∷ 118 ∷ 49 ∷ []

abbrev pub schema_single : Text
schema_single = 97 ∷ 100 ∷ 100 ∷ 114 ∷ 46 ∷ 118 ∷ 49 ∷ []

abbrev pub raw_of : HGetResult → Text
raw_of (value raw) = raw
raw_of redis_nil = []
raw_of redis_error = []

abbrev pub is_nil : HGetResult → Bool
is_nil redis_nil = true
is_nil _ = false

abbrev pub is_error : HGetResult → Bool
is_error (value raw) = false
is_error _ = true

module _ (backend : Backend) where
  open backend use {
    World, has_client, hget, exists, trim_space, decode_list, decode_text, decode_schema,
    decode_single, decode_array,
  }

  abbrev counted : Option ℕ → Bool
  counted none = false
  counted (some n) = ltb 0 n

  unfoldable pub is_node_alive : Text → World → Bool
  is_node_alive instance_id w =
      if not has_client || is_blank (trim_space instance_id)
      then false
      else counted (exists (alive_prefix ++ instance_id) w)

  -- The empty text if none is alive.
  unfoldable pub first_alive_node : List Text → World → Text
  first_alive_node [] w = []
  first_alive_node (addr ∷ addresses) w =
      let rest = first_alive_node addresses w in
      if is_node_alive (trim_space addr) w then trim_space addr else rest

  abbrev pub Answer : Type 0
  Answer = LookupError ⊎ Text

  abbrev pub if_alive : Text → World → Answer
  if_alive addr w = if is_node_alive addr w then inr addr else inr []

  abbrev pub of_list : Option (List Text) → World → Answer
  of_list none w = inl decode_failed
  of_list (some addresses) w = inr (first_alive_node addresses w)

  abbrev pub of_text : Option Text → World → Answer
  of_text none w = inl decode_failed
  of_text (some addr) w = if_alive addr w

  abbrev pub of_schema : Option Text → Text → World → Answer
  of_schema none raw w = inl decode_failed
  of_schema (some schema) raw w =
      if same_text schema schema_array
      then of_list (decode_array raw) w
      else if same_text schema schema_single
      then of_text (decode_single raw) w
      else inl unknown_version

  -- 91 is '[', 123 is '{' and 34 is '"'.
  unfoldable pub lookup_node_from_raw : Text → World → Answer
  lookup_node_from_raw [] w = inr []
  lookup_node_from_raw (c ∷ raw) w =
      if c == 91
      then of_list (decode_list (c ∷ raw)) w
      else if c == 123
      then of_schema (decode_schema (c ∷ raw)) (c ∷ raw) w
      else if c == 34
      then of_text (decode_text (c ∷ raw)) w
      else if_alive (c ∷ raw) w

  unfoldable pub lookup_device_node : Text → Text → World → Answer
  lookup_device_node route_key device_no w =
      let result = hget route_key device_no w in
      if not has_client || (is_blank (trim_space route_key) || is_blank (trim_space device_no))
      then inr []
      else if is_nil result || is_blank (trim_space (raw_of result))
      then inr []
      else if is_error result
      then inl hget_failed
      else lookup_node_from_raw (trim_space (raw_of result)) w
