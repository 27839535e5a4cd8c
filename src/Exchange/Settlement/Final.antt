-- ===== src/Exchange/Settlement/Final.antt =====
-- About closed escrows in the handlers of exchange/routes/settlement.py.
use a2a_settlement.Base.{ℕ, ◌≤◌, ◌≡◌, Bool, true, false, some, arith, ==_refl}
use a2a_settlement.Table.{find}
use a2a_settlement.Table.Keys.{UniqueKeys}
use a2a_settlement.Exchange.Errors.{err, http, raise_if, or_raise, ◌>>=◌, ◌>>◌, wrong_status}
use a2a_settlement.Exchange.Models.{AccountStatus, EscrowStatus, Escrow, Db}
use a2a_settlement.Exchange.Config.{Context}
use a2a_settlement.Exchange.Observer.Frame.{find-expire_stale_held}
use a2a_settlement.Exchange.Settlement.Release.{release}
use a2a_settlement.Exchange.Settlement.Partial.{PartialReleaseRequest, partial_release}
use a2a_settlement.Exchange.Settlement.Refund.{refund}
use a2a_settlement.Exchange.Settlement.Dispute.{dispute}
use a2a_settlement.Exchange.Settlement.Resolve.{ResolveRequest, resolve, is_known, is_operator}
use Prim.Native.String.{String}

-- The statuses that no escrow leaves.
abbrev pub is_closed : EscrowStatus → Bool
is_closed EscrowStatus.released = true
is_closed EscrowStatus.refunded = true
is_closed EscrowStatus.expired = true
is_closed _ = false

module _ {R : Type 0} (ctx : Context R) where
  -- Where escrow ids are unique, an escrow that is released, refunded or expired is final: its
  -- requester's release, partial release, refund and sufficiently staked dispute, and an
  -- operator's resolution, are all refused for its status.
  pub closed_is_final :
      (fuel k stake : ℕ) (reason : String) (part : PartialReleaseRequest) (ruling : ResolveRequest)
      (e : Escrow) (rows : Db R)
      → UniqueKeys rows.escrows
      → find k rows.escrows ≡ some e
      → is_closed e.status ≡ true
      → ctx.settings.dispute_stake_min ≤ stake
      → is_known ruling.resolution ≡ true
      → (release ctx e.requester_id k rows ≡ err (http 400 wrong_status))
        × (partial_release ctx e.requester_id k part rows ≡ err (http 400 wrong_status))
        × (refund ctx fuel e.requester_id k rows ≡ err (http 400 wrong_status))
        × (dispute ctx e.requester_id k stake reason rows ≡ err (http 400 wrong_status))
        × (resolve ctx AccountStatus.operator k ruling rows ≡ err (http 400 wrong_status))
  unfolding release partial_release refund dispute resolve ◌>>=◌ ◌>>◌ raise_if or_raise is_operator
  closed_is_final fuel k stake reason part ruling e rows keys at closed enough known =
      let same = find-expire_stale_held ctx.now k e rows keys at (ground (arith, closed)) in
      let mine = ==_refl e.requester_id in
      (
        ground (arith, same, mine, closed),
        ground (arith, same, mine, closed),
        ground (arith, same, mine, closed),
        ground (arith, at, mine, closed, enough),
        ground (arith, known, at, closed),
      )
