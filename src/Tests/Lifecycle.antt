-- ===== src/Tests/Lifecycle.antt =====
-- Runs of the handlers that open, release and refuse, and of those that spend.
use a2a_settlement.Base.{ℕ, ◌+◌, ◌≡◌, ◌≢◌, refl, arith, some, [], ◌∷◌}
use a2a_settlement.Int.{pos}
use a2a_settlement.Table.{select, find}
use a2a_settlement.Tests.Data.{ctx, settings, escrow, books, value_of, ok-value_of}
use a2a_settlement.Tests.Books.{unique, request, creation, created, sixty, ruling}
use a2a_settlement.Exchange.Errors.{ok, err, http, wrong_status}
use a2a_settlement.Exchange.Models.{AccountStatus, EscrowStatus, Escrow, Db}
use a2a_settlement.Exchange.Fees.{fee_amount}
use a2a_settlement.Exchange.Observer.{resolve_as, expire_stale_held}
use a2a_settlement.Exchange.Observer.Expires.{expire_stale_held_complete}
use a2a_settlement.Exchange.Settlement.Create.{
  EscrowRequest, create_escrow, is_duplicate, same_task,
}
use a2a_settlement.Exchange.Settlement.Create.Opens.{create_escrow_opens, create_escrow_duplicate}
use a2a_settlement.Exchange.Settlement.Release.{ReleaseResponse, release, has_unreleased}
use a2a_settlement.Exchange.Settlement.Release.Returns.{release_returns}
use a2a_settlement.Exchange.Settlement.Partial.{partial_release}
use a2a_settlement.Exchange.Settlement.Refund.{RefundResponse, refund, dependents_of}
use a2a_settlement.Exchange.Settlement.Refund.Returns.{refund_returns}
use a2a_settlement.Exchange.Settlement.Dispute.{dispute}
use a2a_settlement.Exchange.Settlement.Resolve.{resolve, is_known}
use a2a_settlement.Exchange.Settlement.Final.{closed_is_final}

release_returns_example :
    (r : Db ℕ × ReleaseResponse) × (release ctx 1 10 books ≡ ok r)
    × (r.1.amount_paid ≡ 100)
    × (r.1.fee_collected ≡ 3)
    × (find 10 r.0.escrows ≡ some (resolve_as EscrowStatus.released ctx.now escrow))
unfolding find has_unreleased
release_returns_example =
    release_returns ctx 10 escrow books unique refl refl (omega arith) refl refl refl

create_escrow_opens_example :
    (e : Escrow) × (find 15 (value_of creation created).0.escrows ≡ some e)
    × (e.status ≡ EscrowStatus.held)
    × (e.requester_id ≡ 1)
    × (e.provider_id ≡ 2)
    × (pos e.amount ≡ pos 60)
    × (e.fee_amount ≡ fee_amount settings e.amount)
    × ((value_of creation created).1.total_held ≡ e.amount + e.fee_amount)
unfolding find
create_escrow_opens_example =
    create_escrow_opens ctx 1 15 request books refl (value_of creation created)
      (ok-value_of creation created)

-- The task of an escrow that is past its expiry.
abbrev repeated : EscrowRequest
repeated = record request { task_id = some "summary" }

create_escrow_duplicate_example :
    create_escrow ctx 1 15 repeated books ≢ ok (value_of creation created)
unfolding find is_duplicate same_task
create_escrow_duplicate_example =
    create_escrow_duplicate ctx 1 15 12 repeated (record escrow { expires_at = 5 }) books refl refl
      (value_of creation created)

expire_stale_held_complete_example :
    find 12 (expire_stale_held ctx.now books).escrows
    ≡ some (resolve_as EscrowStatus.expired ctx.now (record escrow { expires_at = 5 }))
unfolding find
expire_stale_held_complete_example =
    expire_stale_held_complete ctx.now 12 (record escrow { expires_at = 5 }) books unique refl refl
      (omega arith) refl

refund_returns_example :
    (r : Db ℕ × RefundResponse) × (refund ctx 1 1 10 books ≡ ok r)
    × (r.1.amount_returned ≡ 103)
    × (find 10 r.0.escrows ≡ some (resolve_as EscrowStatus.refunded ctx.now escrow))
unfolding find dependents_of select
refund_returns_example =
    refund_returns ctx 0 10 escrow books unique refl refl (omega arith) refl refl

abbrev closed : Db ℕ
closed = record books { escrows = (10, resolve_as EscrowStatus.released 7 escrow) ∷ [] }

closed_is_final_example :
    (release ctx 1 10 closed ≡ err (http 400 wrong_status))
    × (partial_release ctx 1 10 sixty closed ≡ err (http 400 wrong_status))
    × (refund ctx 5 1 10 closed ≡ err (http 400 wrong_status))
    × (dispute ctx 1 10 25 "late" closed ≡ err (http 400 wrong_status))
    × (resolve ctx AccountStatus.operator 10 ruling closed ≡ err (http 400 wrong_status))
unfolding find is_known
closed_is_final_example =
    closed_is_final ctx 5 10 25 "late" sixty ruling (resolve_as EscrowStatus.released 7 escrow)
      closed (refl, tt) refl refl (omega arith) refl
