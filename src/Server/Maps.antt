-- ===== src/Server/Maps.antt =====
-- A `Map` of the language with texts as keys: the entries in the order of their insertion.
use smart_form.Base.{
  String, ◌≡◌, refl, Option, none, some, List, ◌==◌, Bool-cases, inl, inr, if◌then◌else◌,
}
use smart_form.Database.Table.{select, upsert, merged, select-upsert}

module _ {A : Type 0} where
  abbrev pub entry_key : String × A → String
  entry_key e = e.0

  -- `Map.set` on a key that is there.
  abbrev pub entry_set : String × A → String × A → String × A
  entry_set old new = (old.0, new.1)

  abbrev pub value_of : Option (String × A) → Option A
  value_of none = none
  value_of (some e) = some e.1

  value_of-merged :
      (old : Option (String × A)) (new : String × A)
      → value_of (some (merged entry_key entry_set old new)) ≡ some new.1
  value_of-merged none new = refl
  value_of-merged (some old) new = refl

  -- What `Map.get` returns after `Map.set`.
  pub set_get :
      (key k : String) (a : A) (l : List (String × A))
      → value_of (select entry_key k (upsert entry_key entry_set (key, a) l))
        ≡ (if key == k then some a else value_of (select entry_key k l))
  set_get key k a l = elim (Bool-cases (key == k)) [
    | inl same ↦
        rw (select-upsert entry_key entry_set (λ o n. refl) (key, a) k l)
          (rw same (value_of-merged (select entry_key key l) (key, a)))
    | inr other ↦ rw (select-upsert entry_key entry_set (λ o n. refl) (key, a) k l) (rw other refl)
  ]
