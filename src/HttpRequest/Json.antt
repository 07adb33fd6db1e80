-- ===== src/HttpRequest/Json.antt =====
-- http/httprequest.cpp, `addJsonNode` and its kin: a document of rapidjson becomes parameters.
-- A `rapidjson::Value` is seen through what the code reads of it: the members of an object, the
-- elements of an array, and of any other value what `Accept` writes, or that it fails.
use libtnet.Base.{ℕ, ◌+◌, [], ◌∷◌, ◌++◌, Option, none, some, ◌==◌, if◌then◌else◌}
use libtnet.Base.Bytes.{Bytes}
use libtnet.Base.Decimal.{show}
use libtnet.Base.Multimap.{Multimap, less, insert}
use libtnet.Base.Outcome.{Outcome, ret, ◌>>=◌}
use libtnet.HttpUtil.{unescape}
use mathlib.Core.List.{reverse}

mutual
  pub data JsonNode : Type 0 where
    object : Members → JsonNode
    array : Elements → JsonNode
    leaf : Option Bytes → JsonNode

  pub data Members : Type 0 where
    no_member : Members
    member : Bytes → JsonNode → Members → Members

  pub data Elements : Type 0 where
    no_element : Elements
    element : JsonNode → Elements → Elements

-- A text without a quote at its start.
pub unquote_left : Bytes → Bytes
unquote_left [] = []
unquote_left (c ∷ s) = if c == b'"' then s else c ∷ s

-- `addJsonMember`, without its insertion
pub unquote : Bytes → Bytes
unfolding unquote_left
unquote s = reverse (unquote_left (reverse (unquote_left s)))

abbrev pub child_key : Bytes → Bytes → Bytes
child_key [] name = name
child_key (c ∷ key) name = (c ∷ key) ++ b'.' ∷ name

pub add_json_member : Bytes → Option Bytes → Multimap → Outcome Multimap
unfolding unquote
add_json_member key none params = ret params
add_json_member key (some written) params = do
  key' ← unescape key
  value ← unescape (unquote written)
  ret (insert less key' value params)

mutual
  unfolding add_json_member

  pub add_json_node : Bytes → JsonNode → Multimap → Outcome Multimap
  add_json_node key (object ms) params = add_json_object key ms params
  add_json_node key (array es) params = add_json_array key 0 es params
  add_json_node key (leaf written) params = add_json_member key written params

  pub add_json_object : Bytes → Members → Multimap → Outcome Multimap
  add_json_object key no_member params = ret params
  add_json_object key (member name node ms) params = do
    params' ← add_json_node (child_key key name) node params
    add_json_object key ms params'

  pub add_json_array : Bytes → ℕ → Elements → Multimap → Outcome Multimap
  add_json_array key i no_element params = ret params
  add_json_array key i (element node es) params = do
    params' ← add_json_node (child_key key (show i)) node params
    add_json_array key (i + 1) es params'
