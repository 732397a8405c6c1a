-- ===== src/Sdk/Message/Reads.antt =====
-- What the packages read of a JSON value.
use ac.Common.{String, Option, none, some, if◌then◌else◌, ◌==◌, string_eq}
use ac.Sdk.Message.{Json, Fields, null, bool, num, str, arr, obj, end, field}

abbrev pub get_field : String → Fields → Option Json
get_field name end = none
get_field name (field key value rest) = if key == name then some value else get_field name rest

-- A property of a value, `none` where it is undefined.
abbrev pub property : String → Json → Option Json
property name (obj fields) = get_field name fields
property name null = none
property name (bool b) = none
property name (num n) = none
property name (str s) = none
property name (arr items) = none

-- `typeof x === 'string'`.
abbrev pub as_string : Option Json → Option String
as_string (some (str s)) = some s
as_string (some null) = none
as_string (some (bool b)) = none
as_string (some (num n)) = none
as_string (some (arr items)) = none
as_string (some (obj fields)) = none
as_string none = none
