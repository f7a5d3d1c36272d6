-- ===== src/Server/Resources/Versions.antt =====
-- Published versions never change, and what is active was published.
use smart_form.Base.{
  String, ◌≡◌, refl, ap, ◌∙◌, true, none, some, List, [], ◌∷◌, arith, ◌==◌, eq_iff, Bool-cases,
  Option-cases, inl, inr, ◌⊎◌, if◌then◌else◌,
}
use smart_form.Base.Exec.{Result, ok, err, is_err, pure, continue}
use smart_form.Contracts.Resource.{ManagedResourceVersion}
use smart_form.Database.Table.{select}
use smart_form.Server.Maps.{entry_key, value_of, set_get}
use smart_form.Server.Resources.{
  Repository, version_key, active_key, create, find_version, get_active_version, set_active_version,
  publish, store, activate, is_active, can_activate, same_kind,
}

find_version-create :
    (r : ManagedResourceVersion) (t i v : String) (s : Repository)
    → find_version t i v (create r s).1 ≡ (
        if version_key r.tenant_id r.resource_id r.version == version_key t i v
        then some r
        else find_version t i v s)
unfolding find_version create
find_version-create r t i v s =
    set_get (version_key r.tenant_id r.resource_id r.version) (version_key t i v) r s.versions

find_version-set_active_version :
    (tenant id version t i v : String) (s : Repository)
    → find_version t i v (set_active_version tenant id version s).1 ≡ find_version t i v s
unfolding find_version set_active_version
find_version-set_active_version tenant id version t i v s = refl

find_version-store :
    (r : ManagedResourceVersion) (t i v : String) (s : Repository)
    → find_version t i v (store r s).1 ≡ find_version t i v (create r s).1
unfolding store
find_version-store r t i v s = elim (Bool-cases (is_active r.status)) [
  | inl on ↦
      rw on
        (find_version-set_active_version r.tenant_id r.resource_id r.version t i v (create r s).1)
  | inr off ↦ rw off refl
]

-- Returning a value changes nothing.
continue-pure :
    {E S A B : Type 0} (r : Result E A) (b : B) (s : S) → (continue r (λ _. pure b) s).1 ≡ s
continue-pure (ok a) b s = refl
continue-pure (err e) b s = refl

-- Keys that read differently are different.
find_version-key :
    (t i v t' i' v' : String) (s : Repository)
    → version_key t i v ≡ version_key t' i' v'
    → find_version t i v s ≡ find_version t' i' v' s
unfolding find_version
find_version-key t i v t' i' v' s same = ap (λ k. value_of (select entry_key k s.versions)) same

find_version-publish :
    (r old : ManagedResourceVersion) (t i v : String) (s : Repository)
    → find_version t i v s ≡ some old
    → find_version t i v (publish r s).1 ≡ some old
unfolding publish
find_version-publish r old t i v s there =
    elim (Option-cases (find_version r.tenant_id r.resource_id r.version s)) [
      | inr (prior, e) ↦ rw e there
      | inl absent ↦ elim (Bool-cases (r.artifact.tenant_id == r.tenant_id)) [
        | inr foreign ↦ rw absent (rw foreign there)
        | inl own ↦ elim (Bool-cases (same_kind r.artifact.kind r.kind)) [
          | inr misfit ↦ rw absent (rw own (rw misfit there))
          | inl fit ↦ rw absent (
              rw own (
                rw fit (
                  ap (find_version t i v) (continue-pure (store r s).0 r (store r s).1)
                  ∙ (find_version-store r t i v s
                      ∙ (find_version-create r t i v s ∙ kept absent)))))
        ]
      ]
    ]
  where
    kept :
        find_version r.tenant_id r.resource_id r.version s ≡ none
        → (if version_key r.tenant_id r.resource_id r.version == version_key t i v
            then some r
            else find_version t i v s)
          ≡ some old
    kept absent =
        elim (Bool-cases (version_key r.tenant_id r.resource_id r.version == version_key t i v)) [
          | inl same ↦ absurd (
              ground (
                arith,
                absent,
                there,
                find_version-key r.tenant_id r.resource_id r.version t i v s (
                    (eq_iff (version_key r.tenant_id r.resource_id r.version) (version_key t i v)).0
                      same),
              ))
          | inr other ↦ rw other there
        ]

find_version-activate :
    (tenant id version t i v : String) (s : Repository)
    → find_version t i v (activate tenant id version s).1 ≡ find_version t i v s
unfolding activate
find_version-activate tenant id version t i v s =
    elim (Option-cases (find_version tenant id version s)) [
      | inl absent ↦ rw absent refl
      | inr (r, e) ↦ elim (Bool-cases (can_activate r.status)) [
        | inl on ↦ rw e (rw on (find_version-set_active_version tenant id version t i v s))
        | inr off ↦ rw e (rw off refl)
      ]
    ]

pub data Request : Type 0 where
  publishes : ManagedResourceVersion → Request
  activates : String → String → String → Request

-- One request at a time.
pub serve : Repository → Request → Repository
serve s (publishes r) = (publish r s).1
serve s (activates t i v) = (activate t i v s).1

pub serve_all : Repository → List Request → Repository
serve_all s [] = s
serve_all s (q ∷ qs) = serve_all (serve s q) qs

serve-immutable :
    (q : Request) (old : ManagedResourceVersion) (t i v : String) (s : Repository)
    → find_version t i v s ≡ some old
    → find_version t i v (serve s q) ≡ some old
unfolding serve
serve-immutable (publishes r) old t i v s there = find_version-publish r old t i v s there
serve-immutable (activates tenant id version) old t i v s there =
    find_version-activate tenant id version t i v s ∙ there

-- Whatever is published, activated and rolled back afterwards, one request at a time: a version that
-- was found once is found again, and is the same.
pub version_immutable :
    (qs : List Request) (old : ManagedResourceVersion) (t i v : String) (s : Repository)
    → find_version t i v s ≡ some old
    → find_version t i v (serve_all s qs) ≡ some old
unfolding serve_all
version_immutable [] old t i v s there = there
version_immutable (q ∷ qs) old t i v s there =
    version_immutable qs old t i v (serve s q) (serve-immutable q old t i v s there)

get_active_version-set :
    (tenant id version t i : String) (s : Repository)
    → get_active_version t i (set_active_version tenant id version s).1
      ≡ (if active_key tenant id == active_key t i then some version else get_active_version t i s)
unfolding get_active_version set_active_version
get_active_version-set tenant id version t i s =
    set_get (active_key tenant id) (active_key t i) version s.active_versions

-- An activation returns the version that is stored and makes it the active one, and leaves the
-- resources of other keys as they were; what is not stored, or is neither active, nor validating, nor
-- degraded, is refused, and nothing changes.
pub activate_outcome :
    (tenant id version : String) (s : Repository)
    → ((r : ManagedResourceVersion) × (find_version tenant id version s ≡ some r)
        × (can_activate r.status ≡ true)
        × ((activate tenant id version s).0 ≡ ok r)
        × ((t i : String)
            → get_active_version t i (activate tenant id version s).1 ≡ (
                if active_key tenant id == active_key t i
                then some version
                else get_active_version t i s)))
      ⊎ ((is_err (activate tenant id version s).0 ≡ true) × ((activate tenant id version s).1 ≡ s))
unfolding activate
activate_outcome tenant id version s = elim (Option-cases (find_version tenant id version s)) [
  | inl absent ↦ inr (rw absent (refl, refl))
  | inr (r, e) ↦ elim (Bool-cases (can_activate r.status)) [
    | inr off ↦ inr (rw e (rw off (refl, refl)))
    | inl on ↦ inl (
      r,
      e,
      on,
      rw e (rw on refl),
      λ t i. rw e (rw on (get_active_version-set tenant id version t i s)),
    )
  ]
]
