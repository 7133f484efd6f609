-- ===== src/Access.antt =====
-- `d[k]` and `d.get(k)` of the source on data of any type, which may raise.
use liderahenk_test_platform.Base.{String, ◌<>◌, if◌then◌else◌}
use liderahenk_test_platform.Json.{Value, null, bool, num, str, arr, obj, Fields, has, get}
use liderahenk_test_platform.Result.{Result, ok, err}

-- Python's name of a type of data, for the message of a failing attribute.
abbrev type_name : Value → String
type_name null = "NoneType"
type_name (bool _) = "bool"
type_name (num _) = "int"
type_name (str _) = "str"
type_name (arr _) = "list"
type_name (obj _) = "dict"

-- `v.get`, on anything: only a `dict` has it.
unfoldable pub as_mapping : Value → Result Fields
as_mapping (obj r) = ok r
as_mapping v = err ("'" <> (type_name v <> "' object has no attribute 'get'"))

-- `d.get(k, default)`
abbrev pub get_or : String → Value → Fields → Value
get_or k default r = if has k r then get k r else default

-- `d[k]` on data that must be a `dict`
unfoldable pub at_key : String → Value → Result Value
at_key k (obj r) = if has k r then ok (get k r) else err ("'" <> (k <> "'"))
at_key k v = err "indices must be integers or slices, not str"
