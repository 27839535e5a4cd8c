-- ===== src/Tests/Services.antt =====
-- Runs of the handlers for deliveries, evidence and batches, and of several in a row.
use a2a_settlement.Base.{ℕ, ◌/◌, ◌≡◌, refl, arith, true, false, Option, none, some, List, [], ◌∷◌}
use a2a_settlement.Int.{pos}
use a2a_settlement.Table.{Table, find, modify}
use a2a_settlement.Tests.Data.{
  thousandths, ctx, disputed_escrow, books, is_ok, value_of, ok-value_of,
}
use a2a_settlement.Tests.Books.{unique}
use a2a_settlement.Exchange.Errors.{Result, raise_if, or_raise, ◌>>=◌, ◌>>◌}
use a2a_settlement.Exchange.Models.{AttestationLevel, disputed, Db}
use a2a_settlement.Exchange.Config.{Context}
use a2a_settlement.Exchange.Ledger.{net, gap, modify_escrow}
use a2a_settlement.Exchange.Provenance.{Provenance}
use a2a_settlement.Exchange.Observer.{is_evidence_pending, passed, close_window}
use a2a_settlement.Exchange.Settlement.Deliver.{DeliverRequest, DeliverResponse, deliver}
use a2a_settlement.Exchange.Settlement.Deliver.Keeps.{Delivered, deliver_keeps}
use a2a_settlement.Exchange.Settlement.Evidence.{
  ArtifactType, EvidenceArtifact, EvidenceSettings, EvidenceResponse, all_sound, submit_evidence,
}
use a2a_settlement.Exchange.Settlement.Evidence.Window.{submit_evidence_mediated}
use a2a_settlement.Exchange.Settlement.History.{Step, History, History-keeps_books}
use a2a_settlement.Shim.Gate.{
  GateEscrow, CostModel, per_destination, GateRequest, granted, compute_cost, exact_cost,
  suffix_cost, check_and_deduct,
}
use a2a_settlement.Shim.Gate.Funded.{FloatSub, IsFunded, Charged, check_and_deduct-Charged}
use Prim.Native.String.{String}

abbrev sha : String → String
sha s = s

abbrev domain : String → String
domain s = s

abbrev quotient : ℕ → ℕ → ℕ
quotient a b = a / b

abbrev provenance : Option String → Provenance ℕ
provenance h = record {
  attestation_level = AttestationLevel.signed;
  source_refs = record { content_hash = h } ∷ [];
  signature = none;
  grounding_metadata = none;
}

abbrev delivery : DeliverRequest ℕ
delivery = record { content = "a summary"; provenance = some (provenance (some "a summary")) }

abbrev delivering : Result (Db ℕ × DeliverResponse)
delivering = deliver ctx sha domain quotient 2 10 delivery books

delivering_runs : is_ok delivering ≡ true
unfolding deliver ◌>>=◌ ◌>>◌ raise_if or_raise find
delivering_runs = refl

deliver_keeps_example :
    Delivered ctx sha domain quotient 2 10 1 delivery books (value_of delivering delivering_runs).0
deliver_keeps_example =
    deliver_keeps ctx sha domain quotient 2 10 1 delivery books
      (value_of delivering delivering_runs) (ok-value_of delivering delivering_runs)

abbrev evidence_settings : EvidenceSettings ℕ
evidence_settings = record {
  aware = true;
  max_inline_evidence_bytes = 1000;
  oracle_min_reputation = 600;
}

abbrev artifacts : List EvidenceArtifact
artifacts =
    record {
      artifact_type = ArtifactType.inline;
      content = some "log";
      uri = none;
      content_hash = "log";
    }
    ∷ []

-- While the window of escrow 11 is open.
abbrev earlier : Context ℕ
earlier = record ctx { now = 800_000_000_000 }

abbrev submitting : Result (Db ℕ × EvidenceResponse)
submitting = submit_evidence earlier evidence_settings sha 2 11 artifacts books

submitting_runs : is_ok submitting ≡ true
unfolding submit_evidence ◌>>=◌ ◌>>◌ raise_if or_raise find
submitting_runs = refl

submit_evidence_mediated_example :
    (is_evidence_pending disputed_escrow.status ≡ true)
    × (passed earlier.now disputed_escrow.evidence_window_closes_at ≡ false)
    × (all_sound sha 1000 artifacts ≡ true)
    × (close_window ctx.now 11 disputed_escrow (value_of submitting submitting_runs).0
        ≡ modify_escrow 11
            (λ x. record x { status = disputed })
            (value_of submitting submitting_runs).0)
unfolding find
submit_evidence_mediated_example =
    submit_evidence_mediated earlier evidence_settings sha ctx.now 11 artifacts disputed_escrow
      books refl (value_of submitting submitting_runs) (ok-value_of submitting submitting_runs)

history :
    History evidence_settings sha domain quotient books (value_of delivering delivering_runs).0
history = History.next (History.start books) unique (
    Step.delivered ctx 2 10 delivery books (value_of delivering delivering_runs)
      (ok-value_of delivering delivering_runs))

History-keeps_books_example :
    (net (value_of delivering delivering_runs).0 ≡ net books)
    × (gap 1 (value_of delivering delivering_runs).0 ≡ gap 1 books)
History-keeps_books_example = History-keeps_books evidence_settings sha domain quotient 1 history

abbrev gate : Table (GateEscrow ℕ)
gate = (10, record { status = "held"; amount = pos 5; remaining = 5000 }) ∷ []

abbrev call : GateRequest ℕ
call = record { escrow_id = 10; destination_url = "api.github.com"; cost_override = none }

abbrev prices : CostModel ℕ
prices = per_destination 1000 (("github.com", 2000) ∷ [])

gate-IsFunded : IsFunded thousandths gate
gate-IsFunded k e at = ground arith

exact_subtraction : FloatSub thousandths
exact_subtraction = record { nonnegative = λ x y h. ground arith }

granted_call :
    check_and_deduct thousandths (λ url. url) prices call gate
    ≡ granted ((10, record { status = "held"; amount = pos 5; remaining = 3000 }) ∷ [], 2000)
unfolding check_and_deduct compute_cost exact_cost suffix_cost find modify
granted_call = refl

check_and_deduct-Charged_example :
    Charged thousandths
      (λ url. url)
      prices
      call
      gate
      ((10, record { status = "held"; amount = pos 5; remaining = 3000 }) ∷ [], 2000)
check_and_deduct-Charged_example =
    check_and_deduct-Charged thousandths (λ url. url) prices call gate
      ((10, record { status = "held"; amount = pos 5; remaining = 3000 }) ∷ [], 2000)
      exact_subtraction gate-IsFunded granted_call
