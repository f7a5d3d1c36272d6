-- ===== src/Database/Table.antt =====
-- A table with a text as its primary key: the rows in the order of their insertion, and the SQL
-- statements of apps/desktop/src/main/db.ts on one.
use smart_form.Base.{
  String, ◌≡◌, refl, Option, none, some, List, [], ◌∷◌, arith, ◌==◌, eq_iff, if◌then◌else◌,
}

module _ {R : Type 0} (key : R → String) where
  -- `SELECT … WHERE key = ?`.
  unfoldable pub select : String → List R → Option R
  select k [] = none
  select k (r ∷ rs) = if key r == k then some r else select k rs

  -- `INSERT … ON CONFLICT(key) DO UPDATE SET …`: `merge old new` is the row that the update leaves.
  unfoldable pub upsert : (R → R → R) → R → List R → List R
  upsert merge r [] = r ∷ []
  upsert merge r (o ∷ rs) = if key o == key r then merge o r ∷ rs else o ∷ upsert merge r rs

  -- `INSERT OR IGNORE`.
  unfoldable pub insert_or_ignore : R → List R → List R
  insert_or_ignore r [] = r ∷ []
  insert_or_ignore r (o ∷ rs) = if key o == key r then o ∷ rs else o ∷ insert_or_ignore r rs

  -- `DELETE … WHERE key = ?`.
  unfoldable pub delete : String → List R → List R
  delete k [] = []
  delete k (r ∷ rs) = let rest = delete k rs in if key r == k then rest else r ∷ rest

  abbrev pub merged : (R → R → R) → Option R → R → R
  merged merge none r = r
  merged merge (some o) r = merge o r

  pub select-upsert :
      (merge : R → R → R)
      → ((o r : R) → key (merge o r) ≡ key o)
      → (r : R) (k : String) (rs : List R)
      → select k (upsert merge r rs)
        ≡ (if key r == k then some (merged merge (select (key r) rs) r) else select k rs)
  unfolding select upsert
  select-upsert merge keeps r k [] = refl
  select-upsert merge keeps r k (o ∷ rs) = ground (
    arith,
    eq_iff (key o) (key r),
    eq_iff (key o) k,
    eq_iff (key r) k,
    keeps o r,
    eq_iff (key (merge o r)) k,
    select-upsert merge keeps r k rs,
  )

  pub select-insert_or_ignore :
      (r : R) (k : String) (rs : List R)
      → select k (insert_or_ignore r rs)
        ≡ (if key r == k then some (merged (λ o _. o) (select (key r) rs) r) else select k rs)
  unfolding select insert_or_ignore
  select-insert_or_ignore r k [] = refl
  select-insert_or_ignore r k (o ∷ rs) = ground (
    arith,
    eq_iff (key o) (key r),
    eq_iff (key o) k,
    eq_iff (key r) k,
    select-insert_or_ignore r k rs,
  )

  pub select-delete :
      (j k : String) (rs : List R) → select k (delete j rs) ≡ (if j == k then none else select k rs)
  unfolding select delete
  select-delete j k [] = ground arith
  select-delete j k (r ∷ rs) =
      ground (arith, eq_iff (key r) j, eq_iff (key r) k, eq_iff j k, select-delete j k rs)

  pub key-select : (k : String) (rs : List R) (r : R) → select k rs ≡ some r → key r ≡ k
  unfolding select
  key-select k [] r e = absurd (ground arith)
  key-select k (o ∷ rs) r e = ground (arith, eq_iff (key o) k, key-select k rs r)
