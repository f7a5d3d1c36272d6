-- ===== src/Contracts/Json.antt =====
-- The values of `Record<string, unknown>` fields. A number is held as the text it prints as.
use smart_form.Base.{String, Bool, List, [], ◌∷◌, ◌==◌, if◌then◌else◌}

mutual
  pub data Json : Type 0 where
    null : Json
    bool : Bool → Json
    num : String → Json
    str : String → Json
    arr : Items → Json
    obj : Entries → Json

  pub data Items : Type 0 where
    nil : Items
    cons : Json → Items → Items

  pub data Entries : Type 0 where
    end : Entries
    entry : String → Json → Entries → Entries

abbrev pub Payload : Type 0
Payload = List (String × Json)

-- `{ ...payload, [key]: value }`.
unfoldable pub with_entry : String → Json → Payload → Payload
with_entry key value [] = (key, value) ∷ []
with_entry key value ((k, v) ∷ rest) =
    if k == key then (k, value) ∷ rest else (k, v) ∷ with_entry key value rest

-- `{ ...base, ...extra }`.
unfoldable pub spread : Payload → Payload → Payload
unfolding with_entry
spread base [] = base
spread base ((k, v) ∷ extra) = spread (with_entry k v base) extra
