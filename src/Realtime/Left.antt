-- ===== src/Realtime/Left.antt =====
-- The rows of the outbox that are left when some reports were acknowledged.
use smart_form.Base.{
  ℕ, zero, suc, ◌+◌, ◌≤◌, String, Bool, true, ◌≡◌, refl, ap, some, List, [], ◌∷◌, ◌++◌, map, All,
  any, length, min, arith, eq_refl, ◌==◌, if◌then◌else◌, leb, Bool-cases, inl, inr, drop,
}
use smart_form.Database.{Tables, OutboxRecord, list_outbox, by_sequence, insert_sorted, take}
use smart_form.Database.Table.{delete}
use smart_form.Database.Outbox.{length-by_sequence, take-All}
use smart_form.Realtime.{report_ack, Message, agent_report}
use smart_form.Realtime.Handlers.{Event, message_came}

pub drop-length : {A : Type 0} (xs ys : List A) → drop (length xs) (xs ++ ys) ≡ ys
drop-length [] ys = refl
drop-length (x ∷ xs) ys = drop-length xs ys

-- The reports among the messages.
abbrev pub ids_of : List (ℕ × Message) → List String
ids_of [] = []
ids_of ((j, agent_report r correlation) ∷ ms) = r.report_id ∷ ids_of ms
ids_of ((j, m) ∷ ms) = ids_of ms

abbrev pub acknowledgments : ℕ → List String → List Event
acknowledgments i ids = map (λ id. message_came i (report_ack (some id))) ids

abbrev gone : List String → OutboxRecord → Bool
gone ids row = any (λ id. row.report_id == id) ids

-- The rows that are left after the acknowledgments.
pub left : List String → List OutboxRecord → List OutboxRecord
left ids [] = []
left ids (row ∷ rows) = let rest = left ids rows in if gone ids row then rest else row ∷ rest

pub left-nil : (rows : List OutboxRecord) → left [] rows ≡ rows
unfolding left
left-nil [] = refl
left-nil (row ∷ rows) = ap (λ l. row ∷ l) (left-nil rows)

pub left-delete :
    (id : String) (ids : List String) (rows : List OutboxRecord)
    → left ids (delete (λ r. r.report_id) id rows) ≡ left (id ∷ ids) rows
unfolding left delete
left-delete id ids [] = refl
left-delete id ids (row ∷ rows) = elim (Bool-cases (row.report_id == id)) [
  | inl same ↦ rw same (left-delete id ids rows)
  | inr other_id ↦
      rw other_id (ap (λ l. if gone ids row then l else row ∷ l) (left-delete id ids rows))
]

length-left-insert_sorted :
    (ids : List String) (r : OutboxRecord) (rows : List OutboxRecord)
    → length (left ids (insert_sorted r rows)) ≡ length (left ids (r ∷ rows))
unfolding left insert_sorted
length-left-insert_sorted ids r [] = refl
length-left-insert_sorted ids r (o ∷ rows) = ground (arith, length-left-insert_sorted ids r rows)

length-left-by_sequence :
    (ids : List String) (rows : List OutboxRecord)
    → length (left ids (by_sequence rows)) ≡ length (left ids rows)
unfolding left by_sequence
length-left-by_sequence ids [] = refl
length-left-by_sequence ids (row ∷ rows) =
    ground (
      arith,
      length-left-insert_sorted ids row (by_sequence rows),
      length-left-by_sequence ids rows,
    )

length-left-le :
    (ids : List String) (rows : List OutboxRecord) → length (left ids rows) ≤ length rows
unfolding left
length-left-le ids [] = omega arith
length-left-le ids (row ∷ rows) = ground (arith, length-left-le ids rows)

-- The rows whose ids are all acknowledged are gone.
length-left-take :
    (n : ℕ) (ids : List String) (rows : List OutboxRecord)
    → All (λ r. gone ids r ≡ true) (take n rows)
    → length (left ids rows) + min n (length rows) ≤ length rows
unfolding left take
length-left-take zero ids rows h = omega (arith, length-left-le ids rows)
length-left-take (suc n) ids [] h = omega arith
length-left-take (suc n) ids (row ∷ rows) (p, h) =
    rw p (omega (arith, length-left-take n ids rows h))

pub length-zero : {A : Type 0} (xs : List A) → length xs ≤ 0 → xs ≡ []
length-zero [] h = refl
length-zero (x ∷ xs) h = absurd (omega arith)

unfoldable pub report_ids : List OutboxRecord → List String
report_ids rows = map (λ r. r.report_id) rows

All-gone_cons :
    (id : String) (ids : List String) (rows : List OutboxRecord)
    → All (λ r. gone ids r ≡ true) rows
    → All (λ r. gone (id ∷ ids) r ≡ true) rows
All-gone_cons id ids [] h = tt
All-gone_cons id ids (row ∷ rows) (p, h) = (ground arith, All-gone_cons id ids rows h)

All-gone : (rows : List OutboxRecord) → All (λ r. gone (report_ids rows) r ≡ true) rows
unfolding report_ids
All-gone [] = tt
All-gone (row ∷ rows) =
    (rw (eq_refl row.report_id), All-gone_cons row.report_id (report_ids rows) rows (All-gone rows))

module _ (P : OutboxRecord → Type 0) where
  All-insert_sorted :
      (r : OutboxRecord) (rows : List OutboxRecord)
      → P r
      → All P rows
      → All P (insert_sorted r rows)
  unfolding insert_sorted
  All-insert_sorted r [] p h = (p, tt)
  All-insert_sorted r (o ∷ rows) p (q, h) = elim (Bool-cases (leb r.sequence o.sequence)) [
    | inl first ↦ rw first (p, (q, h))
    | inr later ↦ rw later (q, All-insert_sorted r rows p h)
  ]

  All-by_sequence : (rows : List OutboxRecord) → All P rows → All P (by_sequence rows)
  unfolding by_sequence
  All-by_sequence [] h = tt
  All-by_sequence (row ∷ rows) (p, h) =
      All-insert_sorted row (by_sequence rows) p (All-by_sequence rows h)

  pub All-left : (ids : List String) (rows : List OutboxRecord) → All P rows → All P (left ids rows)
  unfolding left
  All-left ids [] h = tt
  All-left ids (row ∷ rows) (p, h) = elim (Bool-cases (gone ids row)) [
    | inl out ↦ rw out (All-left ids rows h)
    | inr in_it ↦ rw in_it (p, All-left ids rows h)
  ]

pub All-list_outbox :
    (P : OutboxRecord → Type 0) (db : Tables) → All P db.outbox → All P (list_outbox 100 db)
unfolding list_outbox
All-list_outbox P db h = take-All P 100 _ (All-by_sequence P db.outbox h)

-- Without the rows that one listing returned, the outbox is shorter by as many.
pub length-left_listed :
    (db : Tables)
    → length (left (report_ids (list_outbox 100 db)) db.outbox) + min 100 (length db.outbox)
      ≤ length db.outbox
unfolding list_outbox
length-left_listed db = omega (
  arith,
  length-left-by_sequence (report_ids (list_outbox 100 db)) db.outbox,
  length-by_sequence db.outbox,
  length-left-take 100 (report_ids (list_outbox 100 db)) (by_sequence db.outbox)
      (All-gone (list_outbox 100 db)),
)
