-- ===== src/Exchange/Settlement/History.antt =====
-- About sequences of requests to exchange/routes/settlement.py and passes of the expiry of
-- exchange/observers.py.
use a2a_settlement.Base.{ℕ, ◌≤◌, ◌≡◌, refl, ◌∙◌, some, List, []}
use a2a_settlement.Table.{find}
use a2a_settlement.Table.Keys.{UniqueKeys}
use a2a_settlement.Exchange.Errors.{ok, Ensures-or_raise, Ensures-raise_if, Ensures-ok}
use a2a_settlement.Exchange.Models.{AccountStatus, Balance, Escrow, EvidenceSubmission, Db}
use a2a_settlement.Exchange.Config.{Context}
use a2a_settlement.Exchange.Ledger.{net, gap}
use a2a_settlement.Exchange.Observer.{expire_stale_held}
use a2a_settlement.Exchange.Observer.Conserves.{net-expire_stale_held}
use a2a_settlement.Exchange.Observer.Backing.{gap-expire_stale_held}
use a2a_settlement.Exchange.Settlement.Deposit.{DepositResponse, deposit}
use a2a_settlement.Exchange.Settlement.Deposit.Books.{deposit_lem}
use a2a_settlement.Exchange.Settlement.Instant.{InstantSettleResponse, instant_settle}
use a2a_settlement.Exchange.Settlement.Instant.Books.{instant_settle-books}
use a2a_settlement.Exchange.Settlement.Create.{EscrowRequest, EscrowResponse, create_escrow}
use a2a_settlement.Exchange.Settlement.Create.Books.{net-create_escrow, gap-create_escrow}
use a2a_settlement.Exchange.Settlement.Batch.{BatchEscrowItem, batch_create_escrow}
use a2a_settlement.Exchange.Settlement.Batch.Books.{batch_create_escrow-books}
use a2a_settlement.Exchange.Settlement.Deliver.{DeliverRequest, DeliverResponse, deliver}
use a2a_settlement.Exchange.Settlement.Deliver.Keeps.{deliver_keeps}
use a2a_settlement.Exchange.Settlement.Partial.{
  PartialReleaseRequest, PartialReleaseResponse, partial_release,
}
use a2a_settlement.Exchange.Settlement.Partial.Books.{net-partial_release, gap-partial_release}
use a2a_settlement.Exchange.Settlement.Release.{ReleaseResponse, release}
use a2a_settlement.Exchange.Settlement.Release.Books.{net-release, gap-release}
use a2a_settlement.Exchange.Settlement.Refund.{RefundResponse, refund, dependents_of}
use a2a_settlement.Exchange.Settlement.Refund.Books.{net-refund, gap-refund}
use a2a_settlement.Exchange.Settlement.Dispute.{DisputeResponse, dispute}
use a2a_settlement.Exchange.Settlement.Dispute.Books.{IsUndisputed, net-dispute, gap-dispute}
use a2a_settlement.Exchange.Settlement.Resolve.{ResolveRequest, ResolveResponse, resolve}
use a2a_settlement.Exchange.Settlement.Common.Books.{PartiesKnown}
use a2a_settlement.Exchange.Settlement.Resolve.Books.{net-resolve, gap-resolve}
use a2a_settlement.Exchange.Settlement.Evidence.{
  EvidenceArtifact, EvidenceSettings, EvidenceResponse, add_submission, submit_evidence,
  submit_oracle_evidence,
}
use Prim.Native.String.{String}

module _ {R : Type 0} (st : EvidenceSettings R) (sha256 : String → String)
    (extract_domain : String → String) (ratio : ℕ → ℕ → R) where
  -- A request that succeeds, or a pass of the expiry, each in a context of its own. A partial
  -- release is of 100 percent at most, a refund of an escrow without held dependents, a dispute of
  -- one that had no stake, and a resolution of one whose parties have balances.
  pub data Step : Db R → Db R → Type 0 where
    funded :
        (ctx : Context R) (current amount : ℕ) (b : Balance) (db : Db R)
        (r : Db R × DepositResponse)
        → find current db.balances ≡ some b
        → deposit ctx current amount db ≡ ok r
        → Step db r.0
    settled :
        (ctx : Context R) (current provider amount : ℕ) (db : Db R)
        (r : Db R × InstantSettleResponse)
        → instant_settle ctx current provider amount db ≡ ok r
        → Step db r.0
    created :
        (ctx : Context R) (current id : ℕ) (req : EscrowRequest) (db : Db R)
        (r : Db R × EscrowResponse)
        → create_escrow ctx current id req db ≡ ok r
        → Step db r.0
    batched :
        (ctx : Context R) (current : ℕ) (items : List (ℕ × BatchEscrowItem)) (db : Db R)
        (r : Db R × List EscrowResponse)
        → batch_create_escrow ctx current items db ≡ ok r
        → Step db r.0
    delivered :
        (ctx : Context R) (current k : ℕ) (req : DeliverRequest R) (db : Db R)
        (r : Db R × DeliverResponse)
        → deliver ctx sha256 extract_domain ratio current k req db ≡ ok r
        → Step db r.0
    partly_released :
        (ctx : Context R) (current k : ℕ) (req : PartialReleaseRequest) (db : Db R)
        (r : Db R × PartialReleaseResponse)
        → req.release_percent ≤ 100
        → partial_release ctx current k req db ≡ ok r
        → Step db r.0
    was_released :
        (ctx : Context R) (current k : ℕ) (db : Db R) (r : Db R × ReleaseResponse)
        → release ctx current k db ≡ ok r
        → Step db r.0
    was_refunded :
        (ctx : Context R) (fuel current k : ℕ) (db : Db R) (r : Db R × RefundResponse)
        → dependents_of k db.escrows ≡ []
        → refund ctx fuel current k db ≡ ok r
        → Step db r.0
    was_disputed :
        (ctx : Context R) (current k stake : ℕ) (reason : String) (db : Db R)
        (r : Db R × DisputeResponse)
        → ((e : Escrow) → find k db.escrows ≡ some e → IsUndisputed e)
        → dispute ctx current k stake reason db ≡ ok r
        → Step db r.0
    resolved :
        (ctx : Context R) (caller : AccountStatus) (k : ℕ) (req : ResolveRequest) (db : Db R)
        (r : Db R × ResolveResponse)
        → PartiesKnown k db
        → resolve ctx caller k req db ≡ ok r
        → Step db r.0
    evidenced :
        (ctx : Context R) (current k : ℕ) (artifacts : List EvidenceArtifact) (db : Db R)
        (r : Db R × EvidenceResponse)
        → submit_evidence ctx st sha256 current k artifacts db ≡ ok r
        → Step db r.0
    corroborated :
        (ctx : Context R) (current k : ℕ) (artifacts : List EvidenceArtifact) (db : Db R)
        (r : Db R × EvidenceResponse)
        → submit_oracle_evidence ctx st sha256 current k artifacts db ≡ ok r
        → Step db r.0
    passed_expiry : (now : ℕ) (db : Db R) → Step db (expire_stale_held now db)

  -- Steps from a database to another; escrow ids are unique in each, as the primary key has it.
  pub data History : Db R → Db R → Type 0 where
    start : (db : Db R) → History db db
    next :
        {db db' db'' : Db R}
        → History db db'
        → UniqueKeys db'.escrows
        → Step db' db''
        → History db db''

  abbrev SameTotals : ℕ → Db R → Db R → Type 0
  SameTotals a db db' = (net db' ≡ net db) × (gap a db' ≡ gap a db)

  SameTotals-add_submission :
      (ctx : Context R) (a : ℕ) (s : EvidenceSubmission) (db : Db R)
      → SameTotals a db (add_submission ctx st sha256 s db)
  unfolding add_submission net gap
  SameTotals-add_submission ctx a s db = (refl, refl)

  SameTotals-evidence :
      (ctx : Context R) (a current k : ℕ) (artifacts : List EvidenceArtifact) (db : Db R)
      → (r : Db R × EvidenceResponse) → submit_evidence ctx st sha256 current k artifacts db ≡ ok r
      → SameTotals a db r.0
  unfolding submit_evidence
  SameTotals-evidence ctx a current k artifacts db = Ensures-or_raise _ _ _ λ e at.
      Ensures-raise_if _ _ _ λ party. Ensures-raise_if _ _ _ λ pending.
        Ensures-raise_if _ _ _ λ comparable. Ensures-raise_if _ _ _ λ in_time.
          Ensures-raise_if _ _ _ λ sound. Ensures-ok _ _ (SameTotals-add_submission ctx a _ db)

  SameTotals-oracle :
      (ctx : Context R) (a current k : ℕ) (artifacts : List EvidenceArtifact) (db : Db R)
      → (r : Db R × EvidenceResponse)
      → submit_oracle_evidence ctx st sha256 current k artifacts db ≡ ok r
      → SameTotals a db r.0
  unfolding submit_oracle_evidence
  SameTotals-oracle ctx a current k artifacts db = Ensures-or_raise _ _ _ λ acct hacct.
      Ensures-raise_if _ _ _ λ oracle. Ensures-raise_if _ _ _ λ reputable.
        Ensures-or_raise _ _ _ λ e at. Ensures-raise_if _ _ _ λ status.
          Ensures-raise_if _ _ _ λ sound. Ensures-ok _ _ (SameTotals-add_submission ctx a _ db)

  SameTotals-step :
      (a : ℕ) {db db' : Db R} → Step db db' → UniqueKeys db.escrows → SameTotals a db db'
  SameTotals-step a (Step.funded ctx current amount b db r hb q) keys =
      let done = deposit_lem ctx current amount a db b r hb q in (done.0, done.1)
  SameTotals-step a (Step.settled ctx current provider amount db r q) keys =
      instant_settle-books ctx current provider amount a db r q
  SameTotals-step a (Step.created ctx current id req db r q) keys = (
    net-create_escrow ctx current id req db r q,
    gap-create_escrow ctx current id a req db keys r q,
  )
  SameTotals-step a (Step.batched ctx current items db r q) keys =
      batch_create_escrow-books ctx current a items db keys r q
  SameTotals-step a (Step.delivered ctx current k req db r q) keys =
      let (_, _, _, _, _, _, same_net, same_gap) =
        deliver_keeps ctx sha256 extract_domain ratio current k a req db r q in
      (same_net, same_gap)
  SameTotals-step a (Step.partly_released ctx current k req db r percent q) keys = (
    net-partial_release ctx current k req db r q,
    gap-partial_release ctx current k a req db keys percent r q,
  )
  SameTotals-step a (Step.was_released ctx current k db r q) keys =
      (net-release ctx current k db r q, gap-release ctx current k a db keys r q)
  SameTotals-step a (Step.was_refunded ctx fuel current k db r alone q) keys =
      (net-refund ctx fuel current k db r q, gap-refund ctx fuel current k a db r keys alone q)
  SameTotals-step a (Step.was_disputed ctx current k stake reason db r fresh q) keys = (
    net-dispute ctx current k stake reason db r q,
    gap-dispute ctx current k stake a reason db fresh r q,
  )
  SameTotals-step a (Step.resolved ctx caller k req db r known q) keys =
      (net-resolve ctx caller k req db known r q, gap-resolve ctx a caller k req db known r q)
  SameTotals-step a (Step.evidenced ctx current k artifacts db r q) keys =
      SameTotals-evidence ctx a current k artifacts db r q
  SameTotals-step a (Step.corroborated ctx current k artifacts db r q) keys =
      SameTotals-oracle ctx a current k artifacts db r q
  SameTotals-step a (Step.passed_expiry now db) keys =
      (net-expire_stale_held now db, gap-expire_stale_held a now db keys)

  -- Any sequence of successful deposits, instant settlements, creations, batches, deliveries,
  -- evidence, partial releases, releases, refunds, disputes, resolutions and passes of the
  -- expiry neither makes nor loses money, and keeps every account's gap between what is held
  -- from it and what its escrows and stakes account for, if escrow ids are unique at every step,
  -- partial releases are of 100 percent at most, refunds are of escrows without held dependents,
  -- disputed escrows had no stake while they were held, and the parties of resolved escrows have
  -- balances.
  pub History-keeps_books :
      (a : ℕ) {db db' : Db R} → History db db' → (net db' ≡ net db) × (gap a db' ≡ gap a db)
  History-keeps_books a (History.start db) = (refl, refl)
  History-keeps_books a (History.next run keys step) =
      let (before_net, before_gap) = History-keeps_books a run in
      let (step_net, step_gap) = SameTotals-step a step keys in
      (step_net ∙ before_net, step_gap ∙ before_gap)
