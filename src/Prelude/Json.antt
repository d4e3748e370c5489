-- ===== src/Prelude/Json.antt =====
-- A JSON document as Python holds it, with what the source asks of one.
use mathlib.Core.Path.{◌≡◌, refl, ap}
use mathlib.Core.Bool.{Bool, true, false, not}
use mathlib.Core.Option.{Option, none, some}
use mathlib.Core.List.{List, [], ◌∷◌}
use Prim.Native.Nat.{ℕ}
use cyber_threat_intelligenc.Prelude.Tests.{if◌then◌else◌}
use cyber_threat_intelligenc.Prelude.Equality.{◌==◌, nat_eq}
use cyber_threat_intelligenc.Prelude.Text.{Text, text_eq}

-- `other_number` is a number that is no natural one, with whether it is zero.
mutual
  pub data Json : Type 0 where
    null : Json
    boolean other_number : Bool → Json
    number : ℕ → Json
    string : Text → Json
    array : Items → Json
    object : Members → Json

  pub data Items : Type 0 where
    no_items : Items
    item : Json → Items → Items

  pub data Members : Type 0 where
    no_members : Members
    member : Text → Json → Members → Members

abbrev pub items : List Json → Items
items [] = no_items
items (j ∷ js) = item j (items js)

abbrev pub elements : Items → List Json
elements no_items = []
elements (item j js) = j ∷ elements js

pub elements-items : (js : List Json) → elements (items js) ≡ js
elements-items [] = refl
elements-items (j ∷ js) = ap (j ∷◌) (elements-items js)

abbrev pub members : List (Text × Json) → Members
members [] = no_members
members ((k, j) ∷ kjs) = member k j (members kjs)

-- `d.get(k)` and `d[k]`
unfoldable pub get : Text → Members → Option Json
get k no_members = none
get k (member l j ms) = if k == l then some j else get k ms

-- `bool(j)`
unfoldable pub truthy : Json → Bool
truthy null = false
truthy (boolean b) = b
truthy (other_number zero) = not zero
truthy (number n) = not (n == 0)
truthy (string s) = not (s == [])
truthy (array no_items) = false
truthy (array (item _ _)) = true
truthy (object no_members) = false
truthy (object (member _ _ _)) = true
