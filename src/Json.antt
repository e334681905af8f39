-- ===== src/Json.antt =====
-- The values that `JSON.parse` returns. Numbers are the naturals: the code never computes with
-- a number that it reads from a content blob.
use paraclaw.Prelude.{
  ℕ, Bool, true, false, Text, text_eq, Option, none, some, [], if◌then◌else◌, ◌==◌, not,
}

mutual
  pub data Json : Type 0 where
    null : Json
    bool : Bool → Json
    num : ℕ → Json
    str : Text → Json
    arr : Items → Json
    obj : Fields → Json

  pub data Items : Type 0 where
    nil : Items
    cons : Json → Items → Items

  pub data Fields : Type 0 where
    end : Fields
    field : Text → Json → Fields → Fields

-- The value of a key; of a key written twice `JSON.parse` keeps the last.
abbrev pub lookup : Text → Fields → Option Json
lookup k end = none
lookup k (field j v fs) = elim (lookup k fs) [
  | none ↦ (if text_eq j k then some v else none)
  | some w ↦ some w
]

-- `v.key`: `undefined` is `none`. Reading a property of null throws, which callers see first.
abbrev pub get : Json → Text → Option Json
get (obj fs) k = lookup k fs
get _ k = none

-- JavaScript's truth value of a value.
abbrev pub truthy : Json → Bool
truthy null = false
truthy (bool b) = b
truthy (num n) = not (n == 0)
truthy (str []) = false
truthy _ = true
