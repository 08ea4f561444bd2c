-- ===== src/Recipe/Payload.antt =====
-- `OfflinePayload`'s JSON methods. A JSON value that the methods meet is a string, or an object
-- with the fields `source` and `ref`, a missing field being decoded as empty; any other value is
-- refused by package json.
use tacklebox.Common.{
  Bytes, [], ◌≡◌, ◌≢◌, ◌⊎◌, ◌||◌, Option, some, none, arith, bytes_eq, bytes_eq_iff, if◌then◌else◌,
}
use tacklebox.Recipe.{OfflinePayload}

pub data Json : Type 0 where
  str : Bytes → Json
  obj : Bytes → Bytes → Json
  other : Json

-- UnmarshalJSON; `none` is an error.
unfoldable pub unmarshal_json : Json → Option OfflinePayload
unmarshal_json (str ref) = some (record { source = ref; ref = ref })
unmarshal_json (obj source ref) =
    if bytes_eq source [] || bytes_eq ref []
    then none
    else some (record { source = source; ref = ref })
unmarshal_json other = none

-- MarshalJSON
unfoldable pub marshal_json : OfflinePayload → Json
marshal_json p = if bytes_eq p.source p.ref then str p.ref else obj p.source p.ref

-- A payload whose two names are equal, or are both given, is read back as it was written.
pub unmarshal_json-marshal_json :
    (p : OfflinePayload)
    → (p.source ≡ p.ref) ⊎ ((p.source ≢ []) × (p.ref ≢ []))
    → unmarshal_json (marshal_json p) ≡ some p
unfolding unmarshal_json marshal_json
unmarshal_json-marshal_json p h =
    ground (arith, bytes_eq_iff p.source p.ref, bytes_eq_iff p.source [], bytes_eq_iff p.ref [])

-- Whatever is decoded is written in a form that decodes to the same payload.
pub unmarshal_json_stable :
    (j : Json) {p : OfflinePayload}
    → unmarshal_json j ≡ some p
    → unmarshal_json (marshal_json p) ≡ some p
unfolding unmarshal_json marshal_json
unmarshal_json_stable (str ref) {p} h = ground (arith, bytes_eq_iff p.source p.ref)
unmarshal_json_stable (obj s r) {p} h =
    ground (arith, bytes_eq_iff p.source p.ref, bytes_eq_iff s [], bytes_eq_iff r [])
unmarshal_json_stable other {p} h = ground arith
