-- ===== src/Json/Access.antt =====
-- Objects as lists of fields: reading a field, and `{ ...obj, key: value }`.
use proveria.Common.{◌≡◌, refl, arith, if◌then◌else◌}
use proveria.Bytes.{Text, same_text}
use proveria.Bytes.Order.{same_text_iff}
use proveria.Json.{Json, undefined, Fields, end, field}

-- `obj[key]`
unfoldable pub get : Fields → Text → Json
get end k = undefined
get (field j v rest) k = if same_text j k then v else get rest k

-- `{ ...obj, key: value }`: the field keeps its place, a new one comes last.
unfoldable pub set : Text → Json → Fields → Fields
set k v end = field k v end
set k v (field j w rest) = if same_text j k then field k v rest else field j w (set k v rest)

pub set-set : (k : Text) (v w : Json) (f : Fields) → set k v (set k w f) ≡ set k v f
unfolding set
set-set k v w end = ground (arith, same_text_iff k k)
set-set k v w (field j x rest) = ground (arith, same_text_iff k k, set-set k v w rest)

pub get-set :
    (k j : Text) (v : Json) (f : Fields)
    → get (set k v f) j ≡ (if same_text k j then v else get f j)
unfolding get set
get-set k j v end = refl
get-set k j v (field i w rest) =
    ground (arith, same_text_iff i k, same_text_iff k j, same_text_iff i j, get-set k j v rest)
