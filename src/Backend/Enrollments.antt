-- ===== src/Backend/Enrollments.antt =====
-- The enrollment service, backend/src/services/enrollmentService.ts, over the in-memory store of
-- backend/src/storage/memoryAdapter.ts. Identifiers are only compared, so they are numbers, and a
-- time is the number that `new Date()` reads.
pub mod Sync
pub mod Leaving
pub mod Roll
use line_proof.Base.{
  ℕ, not, ◌&&◌, ◌||◌, Bool, true, false, Option, none, some, List, [], ◌∷◌, ◌++◌, ◌==◌,
  if◌then◌else◌, unwrap_or, contains, without,
}

pub record EnrollmentRecord : Type 0 where
  pub queue_id : ℕ
  pub identity : ℕ
  pub enrolled_at : ℕ
  pub conflict : Bool
  pub cancelled : Bool

-- What `serviceEmitter` is told.
pub data ServiceEvent : Type 0 where
  enrollment_created : EnrollmentRecord → ServiceEvent
  enrollment_cancelled : ℕ → ℕ → ServiceEvent

-- The two namespaces of the store, `enrollments:byIdentity` and `enrollments:queueIndex`, and the
-- events emitted. A `Set` is the list of its entries in the order of their insertion.
pub record Store : Type 0 where
  pub by_identity : ℕ → Option (List EnrollmentRecord)
  pub queue_index : ℕ → Option (List ℕ)
  pub emitted : List ServiceEvent

-- `store.set(namespace, key, value)`
abbrev pub put {ℓ} : {A : Type ℓ} → ℕ → A → (ℕ → Option A) → ℕ → Option A
put k a m j = if k == j then some a else m j

-- `byIdentity(identity)`
abbrev pub records : Store → ℕ → List EnrollmentRecord
records s identity = unwrap_or (s.by_identity identity) []

-- `queueSet(queueId) ?? new Set()`
abbrev pub enrolled : Store → ℕ → List ℕ
enrolled s queue_id = unwrap_or (s.queue_index queue_id) []

-- `item.queueId === queueId && !item.cancelled`
abbrev pub is_live : ℕ → EnrollmentRecord → Bool
is_live queue_id r = r.queue_id == queue_id && not r.cancelled

-- `existing.some(...)`
abbrev pub is_taken : ℕ → List EnrollmentRecord → Bool
is_taken queue_id [] = false
is_taken queue_id (r ∷ rs) = is_live queue_id r || is_taken queue_id rs

-- `set.add(identity)`
abbrev pub add : ℕ → List ℕ → List ℕ
add identity ids = if contains identity ids then ids else ids ++ identity ∷ []

abbrev pub new_record : ℕ → ℕ → ℕ → Bool → EnrollmentRecord
new_record now queue_id identity conflict = record {
  queue_id = queue_id;
  identity = identity;
  enrolled_at = now;
  conflict = conflict;
  cancelled = false;
}

unfoldable pub enroll_identity : ℕ → ℕ → ℕ → Store → EnrollmentRecord × Store
enroll_identity now queue_id identity s =
    if is_taken queue_id (records s identity) then (new_record now queue_id identity true, s) else (
      new_record now queue_id identity false,
      record {
        by_identity =
            put identity (records s identity ++ new_record now queue_id identity false ∷ [])
              s.by_identity;
        queue_index = put queue_id (add identity (enrolled s queue_id)) s.queue_index;
        emitted = s.emitted ++ enrollment_created (new_record now queue_id identity false) ∷ [];
      },
    )

-- `record.cancelled = true` on the record that `find` returns.
abbrev pub cancel_first : ℕ → List EnrollmentRecord → List EnrollmentRecord
cancel_first queue_id [] = []
cancel_first queue_id (r ∷ rs) =
    let rest = cancel_first queue_id rs in
    if is_live queue_id r then record r { cancelled = true } ∷ rs else r ∷ rest

-- `set.delete(identity)`, where there is a set.
abbrev pub unlist : ℕ → ℕ → Option (List ℕ) → (ℕ → Option (List ℕ)) → ℕ → Option (List ℕ)
unlist queue_id identity none index = index
unlist queue_id identity (some ids) index = put queue_id (without identity ids) index

abbrev pub cancel_among : ℕ → ℕ → Option (List EnrollmentRecord) → Store → Bool × Store
cancel_among queue_id identity none s = (false, s)
cancel_among queue_id identity (some existing) s =
    if is_taken queue_id existing
    then (
      true,
      record {
        by_identity = put identity (cancel_first queue_id existing) s.by_identity;
        queue_index = unlist queue_id identity (s.queue_index queue_id) s.queue_index;
        emitted = s.emitted ++ enrollment_cancelled queue_id identity ∷ [];
      },
    )
    else (false, s)

unfoldable pub cancel_enrollment : ℕ → ℕ → Store → Bool × Store
cancel_enrollment queue_id identity s = cancel_among queue_id identity (s.by_identity identity) s

-- `records.filter(...)`
abbrev pub live : ℕ → List EnrollmentRecord → List EnrollmentRecord
live queue_id [] = []
live queue_id (r ∷ rs) =
    let rest = live queue_id rs in if is_live queue_id r then r ∷ rest else rest

abbrev pub gather : ℕ → Store → List ℕ → List EnrollmentRecord
gather queue_id s [] = []
gather queue_id s (identity ∷ ids) = live queue_id (records s identity) ++ gather queue_id s ids

unfoldable pub get_enrollments_by_queue : ℕ → Store → List EnrollmentRecord
get_enrollments_by_queue queue_id s = gather queue_id s (enrolled s queue_id)

-- A service over an empty store, and its calls that change state.
abbrev pub empty : Store
empty = record { by_identity = λ i. none; queue_index = λ q. none; emitted = [] }

pub data Reach : Store → Type 0 where
  fresh : Reach empty
  enrolls :
      (now queue_id identity : ℕ) {s : Store}
      → Reach s
      → Reach (enroll_identity now queue_id identity s).1
  cancels :
      (queue_id identity : ℕ) {s : Store}
      → Reach s
      → Reach (cancel_enrollment queue_id identity s).1
