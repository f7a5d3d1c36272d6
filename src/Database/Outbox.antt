-- ===== src/Database/Outbox.antt =====
-- The outbox: what is queued stays until it is acknowledged, and is listed in order.
use smart_form.Base.{
  ℕ, suc, ◌≤◌, String, ◌≡◌, refl, Option, none, some, List, [], ◌∷◌, arith, ◌==◌, if◌then◌else◌,
  leb, All, length, Bool-cases, inl, inr, min,
}
use smart_form.Database.{
  OutboxRecord, Tables, enqueue_report, acknowledge_report, list_outbox, by_sequence, insert_sorted,
  take, safe_limit,
}
use smart_form.Database.Table.{merged, select, select-insert_or_ignore, select-delete}

abbrev pub queued : String → Tables → Option OutboxRecord
queued id db = select (λ r. r.report_id) id db.outbox

-- A report that is queued twice keeps its first row; no other row changes.
pub queued-enqueue :
    (r : OutboxRecord) (id : String) (db : Tables)
    → queued id (enqueue_report r db) ≡ (
        if r.report_id == id
        then some (merged (λ x. x.report_id) (λ o _. o) (queued r.report_id db) r)
        else queued id db)
unfolding enqueue_report
queued-enqueue r id db = select-insert_or_ignore (λ x. x.report_id) r id db.outbox

-- An acknowledgment removes the row of its report and no other.
pub queued-acknowledge :
    (j id : String) (db : Tables)
    → queued id (acknowledge_report j db) ≡ (if j == id then none else queued id db)
unfolding acknowledge_report
queued-acknowledge j id db = select-delete (λ r. r.report_id) j id db.outbox

abbrev pub IsAscending : List OutboxRecord → Type 0
IsAscending [] = Unit {0}
IsAscending (r ∷ rs) = All (λ o. r.sequence ≤ o.sequence) rs × IsAscending rs

insert_sorted-All :
    (n : ℕ) (r : OutboxRecord) (rs : List OutboxRecord)
    → n ≤ r.sequence
    → All (λ o. n ≤ o.sequence) rs
    → All (λ o. n ≤ o.sequence) (insert_sorted r rs)
unfolding insert_sorted
insert_sorted-All n r [] h k = (h, tt)
insert_sorted-All n r (o ∷ rs) h (p, k) = ground (arith, insert_sorted-All n r rs h k)

All-le_of_le :
    (m n : ℕ) (rs : List OutboxRecord)
    → m ≤ n
    → All (λ o. n ≤ o.sequence) rs
    → All (λ o. m ≤ o.sequence) rs
All-le_of_le m n [] h k = tt
All-le_of_le m n (r ∷ rs) h (p, k) = (omega arith, All-le_of_le m n rs h k)

insert_sorted-IsAscending :
    (r : OutboxRecord) (rs : List OutboxRecord) → IsAscending rs → IsAscending (insert_sorted r rs)
unfolding insert_sorted
insert_sorted-IsAscending r [] h = (tt, tt)
insert_sorted-IsAscending r (o ∷ rs) (low, h) = elim (Bool-cases (leb r.sequence o.sequence)) [
  | inl first ↦
      rw first ((ground arith, All-le_of_le r.sequence o.sequence rs (ground arith) low), (low, h))
  | inr later ↦
      rw later
        (insert_sorted-All o.sequence r rs (ground arith) low, insert_sorted-IsAscending r rs h)
]

by_sequence-IsAscending : (rs : List OutboxRecord) → IsAscending (by_sequence rs)
unfolding by_sequence
by_sequence-IsAscending [] = tt
by_sequence-IsAscending (r ∷ rs) =
    insert_sorted-IsAscending r (by_sequence rs) (by_sequence-IsAscending rs)

pub take-All :
    (P : OutboxRecord → Type 0) (n : ℕ) (rs : List OutboxRecord) → All P rs → All P (take n rs)
unfolding take
take-All P ℕ.zero rs h = tt
take-All P (suc n) [] h = tt
take-All P (suc n) (r ∷ rs) (p, h) = (p, take-All P n rs h)

take-IsAscending : (n : ℕ) (rs : List OutboxRecord) → IsAscending rs → IsAscending (take n rs)
unfolding take
take-IsAscending ℕ.zero rs h = tt
take-IsAscending (suc n) [] h = tt
take-IsAscending (suc n) (r ∷ rs) (p, h) = (take-All _ n rs p, take-IsAscending n rs h)

length-take : {A : Type 0} (n : ℕ) (xs : List A) → length (take n xs) ≡ min n (length xs)
unfolding take
length-take ℕ.zero xs = omega arith
length-take (suc n) [] = omega arith
length-take (suc n) (x ∷ xs) = omega (arith, length-take n xs)

length-insert_sorted :
    (r : OutboxRecord) (rs : List OutboxRecord) → length (insert_sorted r rs) ≡ suc (length rs)
unfolding insert_sorted
length-insert_sorted r [] = refl
length-insert_sorted r (o ∷ rs) = ground (arith, length-insert_sorted r rs)

pub length-by_sequence : (rs : List OutboxRecord) → length (by_sequence rs) ≡ length rs
unfolding by_sequence
length-by_sequence [] = refl
length-by_sequence (r ∷ rs) =
    omega (arith, length-insert_sorted r (by_sequence rs), length-by_sequence rs)

-- A listing is in the order of the sequence numbers, and holds as many rows as the limit, brought
-- into 1 to 1000, and the outbox allow.
pub list_outbox_lem :
    (limit : ℕ) (db : Tables)
    → IsAscending (list_outbox limit db)
      × (length (list_outbox limit db) ≡ min (safe_limit limit) (length db.outbox))
unfolding list_outbox
list_outbox_lem limit db = (
  take-IsAscending (safe_limit limit) _ (by_sequence-IsAscending db.outbox),
  omega
      (arith, length-take (safe_limit limit) (by_sequence db.outbox), length-by_sequence db.outbox),
)
