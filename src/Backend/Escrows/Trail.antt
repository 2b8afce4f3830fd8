-- ===== src/Backend/Escrows/Trail.antt =====
-- What the escrow service emits about an escrow, in every history.
use line_proof.Base.{
  ℕ, ◌≡◌, refl, sym, ap, subst, ◌∙◌, true, Option, none, some, List, [], ◌∷◌, ◌++◌, arith,
  if◌then◌else◌, Bool-cases, Option-cases, inl, inr, ltb,
}
use line_proof.Backend.Escrows.{
  EscrowStatus, active, released, refunded, expired, EscrowRecord, ServiceEvent, escrow_deposited,
  escrow_released, escrow_refunded, escrow_expired, Store, returned, same_text, keep, id_of,
  new_escrow, Payload, last_time, is_active, moved, no_guard, has_expired, deposit_escrow,
  transition_found, transition, release_escrow, refund_escrow, expire_escrow, Call, deposit_call,
  release_call, refund_call, expire_call, dropped, invoke, empty, Reach, fresh, later,
}

abbrev pub about : ServiceEvent → EscrowRecord
about (escrow_deposited r) = r
about (escrow_released r) = r
about (escrow_refunded r) = r
about (escrow_expired r) = r

-- What was emitted about one id.
abbrev pub told : List ℕ → List ServiceEvent → List ServiceEvent
told id [] = []
told id (e ∷ es) = let rest = told id es in if same_text (about e).id id then e ∷ rest else rest

-- The escrow as it was deposited.
abbrev pub opened : EscrowRecord → EscrowRecord
opened r = record r { status = active; released_at = none }

abbrev pub settlement : EscrowStatus → EscrowRecord → List ServiceEvent
settlement active r = []
settlement released r = escrow_released r ∷ []
settlement refunded r = escrow_refunded r ∷ []
settlement expired r = escrow_expired r ∷ []

abbrev pub trail : Option EscrowRecord → List ServiceEvent
trail none = []
trail (some r) = escrow_deposited (opened r) ∷ settlement r.status r

same_text_sound : (xs ys : List ℕ) → same_text xs ys ≡ true → xs ≡ ys
same_text_sound [] [] e = refl
same_text_sound [] (y ∷ ys) e = absurd (cc)
same_text_sound (x ∷ xs) [] e = absurd (cc)
same_text_sound (x ∷ xs) (y ∷ ys) e = ground (arith, same_text_sound xs ys)

same_text_refl : (xs : List ℕ) → same_text xs xs ≡ true
same_text_refl [] = refl
same_text_refl (x ∷ xs) = ground (arith, same_text_refl xs)

told-append :
    (id : List ℕ) (es : List ServiceEvent) (e : ServiceEvent)
    → told id (es ++ e ∷ [])
      ≡ (if same_text (about e).id id then told id es ++ e ∷ [] else told id es)
told-append id [] e = refl
told-append id (x ∷ es) e = ground (arith, told-append id es e)

settlement-active :
    (status : EscrowStatus) (r : EscrowRecord) → is_active status ≡ true → settlement status r ≡ []
settlement-active active r e = refl
settlement-active released r e = absurd (cc)
settlement-active refunded r e = absurd (cc)
settlement-active expired r e = absurd (cc)

-- What was emitted about an id is the trail of its escrow, which bears the id.
record IsTrailed (s : Store) : Type 0 where
  trailed : (id : List ℕ) → told id s.emitted ≡ trail (s.escrows id)
  named : (id : List ℕ) (r : EscrowRecord) → s.escrows id ≡ some r → r.id ≡ id

keep-trailed :
    (id : List ℕ) (r : EscrowRecord) (event : EscrowRecord → ServiceEvent) (s : Store)
    → (about (event r)).id ≡ id
    → told id s.emitted ++ event r ∷ [] ≡ trail (some r)
    → IsTrailed s
    → (j : List ℕ) → told j (keep id r event s).emitted ≡ trail ((keep id r event s).escrows j)
keep-trailed id r event s n h v j = elim (Bool-cases (same_text id j)) [
  | inl same ↦
      let e = same_text_sound id j same in rw (told-append j s.emitted (event r), n, same, sym e) h
  | inr other ↦ rw (told-append j s.emitted (event r), n, other) (v.trailed j)
]

keep-named :
    (id : List ℕ) (r : EscrowRecord) (event : EscrowRecord → ServiceEvent) (s : Store)
    → r.id ≡ id
    → IsTrailed s
    → (j : List ℕ) (x : EscrowRecord) → (keep id r event s).escrows j ≡ some x
    → x.id ≡ j
keep-named id r event s n v j x at = elim (Bool-cases (same_text id j)) [
  | inl same ↦ let e = same_text_sound id j same in ground arith
  | inr other ↦ v.named j x (ground arith)
]

keep-IsTrailed :
    (id : List ℕ) (r : EscrowRecord) (event : EscrowRecord → ServiceEvent) (s : Store)
    → r.id ≡ id
    → (about (event r)).id ≡ id
    → told id s.emitted ++ event r ∷ [] ≡ trail (some r)
    → IsTrailed s
    → IsTrailed (keep id r event s)
keep-IsTrailed id r event s n a h v = record {
  trailed = keep-trailed id r event s a h v;
  named = keep-named id r event s n v;
}

transition_found-IsTrailed :
    (now : ℕ) (id : List ℕ) (next : EscrowStatus) (event : EscrowRecord → ServiceEvent)
    (guard : EscrowRecord → Option ℕ) (o : Option EscrowRecord) (s t : Store)
    → ((r : EscrowRecord) → about (event r) ≡ r)
    → ((r : EscrowRecord) → settlement next r ≡ event r ∷ [])
    → s.escrows id ≡ o
    → IsTrailed s
    → dropped (transition_found now id next event guard o s) ≡ returned t
    → IsTrailed t
transition_found-IsTrailed now id next event guard none s t a e at v ok =
    subst IsTrailed {x = s} (cc) v
transition_found-IsTrailed now id next event guard (some r) s t a e at v ok =
    let after = moved now next r in
    elim (Bool-cases (is_active r.status)) [
      | inl on ↦ elim (Option-cases (guard r)) [
        | inl free ↦ subst IsTrailed {x = keep id after event s} (ground arith) (
            keep-IsTrailed id after event s (v.named id r at)
              (ap (λ x. x.id) (a after) ∙ v.named id r at)
              (rw (v.trailed id, at, settlement-active r.status r on, e after) refl) v)
        | inr (status, refused) ↦ absurd (ground arith)
      ]
      | inr off ↦ absurd (ground arith)
    ]

deposit_escrow-IsTrailed :
    (now : ℕ) (p : Payload) (s t : Store)
    → IsTrailed s
    → dropped (deposit_escrow now p s) ≡ returned t
    → IsTrailed t
unfolding deposit_escrow
deposit_escrow-IsTrailed now p s t v ok =
    let id = id_of p.queue_id p.identity in
    let escrow = new_escrow now p in
    elim (Option-cases (s.escrows id)) [
      | inl free ↦ elim (Bool-cases (ltb last_time escrow.expires_at)) [
        | inl far ↦ absurd (ground arith)
        | inr near ↦
            subst IsTrailed {x = keep id escrow escrow_deposited s} (ground arith) (
              keep-IsTrailed id escrow escrow_deposited s refl refl (rw (v.trailed id, free) refl)
                v)
      ]
      | inr (r, taken) ↦ absurd (ground arith)
    ]

invoke-IsTrailed : (c : Call) (s t : Store) → IsTrailed s → invoke c s ≡ returned t → IsTrailed t
unfolding invoke transition release_escrow refund_escrow expire_escrow
invoke-IsTrailed (deposit_call now p) s t v ok = deposit_escrow-IsTrailed now p s t v ok
invoke-IsTrailed (release_call now id) s t v ok =
    transition_found-IsTrailed now id released escrow_released no_guard (s.escrows id) s t
      (λ r. refl) (λ r. refl) refl v ok
invoke-IsTrailed (refund_call now id) s t v ok =
    transition_found-IsTrailed now id refunded escrow_refunded no_guard (s.escrows id) s t
      (λ r. refl) (λ r. refl) refl v ok
invoke-IsTrailed (expire_call clock now id) s t v ok =
    transition_found-IsTrailed now id expired escrow_expired (has_expired clock) (s.escrows id) s t
      (λ r. refl) (λ r. refl) refl v ok

empty-IsTrailed : IsTrailed empty
empty-IsTrailed = record { trailed = λ id. refl; named = λ id r at. absurd (cc) }

Reach-IsTrailed : {s : Store} → Reach s → IsTrailed s
Reach-IsTrailed fresh = empty-IsTrailed
Reach-IsTrailed (later {s} {t} c r ok) = invoke-IsTrailed c s t (Reach-IsTrailed r) ok

-- In every history of the escrow service, what was emitted about an id is nothing when the id has no
-- escrow, else the deposit of its escrow followed by the settlement that its status names, if it is
-- settled: an escrow is settled once at most and never changed otherwise. It bears the id it is
-- stored under.
pub Reach-trail :
    (s : Store) (id : List ℕ)
    → Reach s
    → (told id s.emitted ≡ trail (s.escrows id))
      × ((r : EscrowRecord) → s.escrows id ≡ some r → r.id ≡ id)
Reach-trail s id reached = let v = Reach-IsTrailed reached in (v.trailed id, v.named id)
