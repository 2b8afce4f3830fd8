-- ===== src/Backend/Tests/Later.antt =====
-- A history of the escrow service, a queue on chain, and what the theorems say of them.
use line_proof.Base.{ℕ, ◌≡◌, true, refl, none, some, List, [], ◌∷◌}
use line_proof.Soroban.Program.{Env}
use line_proof.Queue.Types
use line_proof.Queue.Types.{QueueConfig}
use line_proof.Backend.Escrows
use line_proof.Backend.Escrows.{
  active, released, EscrowRecord, Payload, returned, escrow_deposited, escrow_released, id_of,
  new_escrow, moved, keep, empty, Store, deposit_escrow, release_escrow, refund_escrow, transition,
  invoke, threw, deposit_call, release_call, Reach,
}
use line_proof.Backend.Escrows.Trail.{told, trail, Reach-trail}

abbrev payload : Payload
payload = record {
  queue_id = 97 ∷ 98 ∷ [];
  identity = 71 ∷ [];
  amount = 500;
  asset = 88 ∷ [];
  hold_days = none;
}

abbrev escrow_id : List ℕ
escrow_id = id_of payload.queue_id payload.identity

abbrev deposited : Store
deposited = keep escrow_id (new_escrow 1000 payload) escrow_deposited empty

abbrev paid_out : Store
paid_out = keep escrow_id (moved 2000 released (new_escrow 1000 payload)) escrow_released deposited

deposited_Step : invoke (deposit_call 1000 payload) empty ≡ returned deposited
unfolding invoke deposit_escrow
deposited_Step = refl

paid_out_Step : invoke (release_call 2000 escrow_id) deposited ≡ returned paid_out
unfolding invoke release_escrow transition
paid_out_Step = refl

paid_out_Reach : Reach paid_out
paid_out_Reach =
    Escrows.later (release_call 2000 escrow_id)
      (Escrows.later (deposit_call 1000 payload) Escrows.fresh deposited_Step) paid_out_Step

refund_after_release : refund_escrow 3000 escrow_id paid_out ≡ threw 409
unfolding refund_escrow transition
refund_after_release = refl

expire_too_early : Escrows.expire_escrow 3000 3001 escrow_id deposited ≡ threw 422
unfolding Escrows.expire_escrow transition
expire_too_early = refl

Reach-trail_example :
    (told escrow_id paid_out.emitted ≡ trail (paid_out.escrows escrow_id))
    × ((r : EscrowRecord) → paid_out.escrows escrow_id ≡ some r → r.id ≡ escrow_id)
Reach-trail_example = Reach-trail paid_out escrow_id paid_out_Reach

-- A queue that admin 7 has set up, in draft.
abbrev chain : Env
chain = record {
  timestamp = 50;
  current_contract_address = 1;
  has_auth = λ who. true;
  symbol = λ text. 0;
  sha256_xdr = λ identity queue_id enrolled_at. identity;
  deploy = λ hash salt. none;
}

abbrev config : QueueConfig
config = record {
  slug = 5;
  name = 6;
  admin = 7;
  max_positions = 3;
  enrollment_opens = 0;
  enrollment_closes = 100;
  status = Types.draft;
  version = 1;
  advancement_rule = Types.fifo;
}
