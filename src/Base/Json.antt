-- ===== src/Base/Json.antt =====
-- A decoded JSON value, as encoding/json gives it in an `any`. Decoding itself is an argument of what
-- uses it.
use Prim.Native.Nat.{ℕ, zero, suc}
use Prim.Native.String.{String}
use mathlib.Core.Bool.{Bool}
use mathlib.Core.Option.{Option, none, some}
use classing_backend.Base.Tests.{◌==◌, string_eq, if◌then◌else◌}

mutual
  pub data Json : Type 0 where
    null : Json
    truth : Bool → Json
    number : String → Json
    text : String → Json
    array : Items → Json
    object : Members → Json

  pub data Items : Type 0 where
    no_items : Items
    item : Json → Items → Items

  pub data Members : Type 0 where
    no_members : Members
    member : String → Json → Members → Members

abbrev pub item_count : Items → ℕ
item_count no_items = zero
item_count (item _ is) = suc (item_count is)

-- What a Go map holds after decoding: the last of the members with the key.
abbrev pub member_of : String → Members → Option Json
member_of key no_members = none
member_of key (member k v ms) =
    let later = member_of key ms in
    elim later [ some w ↦ some w | none ↦ if k == key then some v else none ]
