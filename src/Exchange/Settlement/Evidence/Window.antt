-- ===== src/Exchange/Settlement/Evidence/Window.antt =====
-- About evidence of exchange/routes/settlement.py and the closing of its window in
-- exchange/observers.py.
use a2a_settlement.Base.{
  ℕ, ◌≡◌, ◌≢◌, refl, sym, ap, ◌∙◌, true, false, some, none, Option, List, ==_refl, arith, contains,
}
use a2a_settlement.Table.{find}
use a2a_settlement.Exchange.Errors.{ok, Ensures-or_raise, Ensures-raise_if, Ensures-ok}
use a2a_settlement.Exchange.Models.{Escrow, EvidenceSubmission, disputed, Db}
use a2a_settlement.Exchange.Config.{Context}
use a2a_settlement.Exchange.Ledger.{modify_escrow}
use a2a_settlement.Exchange.Observer.{
  is_evidence_pending, passed, respondent, submitter_ids, close_window,
}
use a2a_settlement.Exchange.Settlement.Evidence.{
  EvidenceArtifact, EvidenceSettings, EvidenceResponse, all_sound, new_submission, add_submission,
  submit_evidence, submit_oracle_evidence,
}
use mathlib.Core.Option.{some-injective}
use Prim.Native.String.{String}

module _ {R : Type 0} (ctx : Context R) (st : EvidenceSettings R) (sha256 : String → String) where
  -- The window of an escrow whose respondent is among the submitters closes without a judgment.
  close_window_mediated :
      (now k : ℕ) (e : Escrow) (db : Db R)
      → contains (respondent e) (submitter_ids k db.evidence) ≡ true
      → close_window now k e db ≡ modify_escrow k (λ x. record x { status = disputed }) db
  unfolding close_window
  close_window_mediated now k e db h = rw (close_window, h) refl

  submitted_by :
      (k current : ℕ) (oracle : Option ℕ) (db : Db R)
      → contains current (
          submitter_ids k
            (add_submission ctx st sha256 (new_submission k current oracle ctx.now) db).evidence)
        ≡ true
  unfolding add_submission
  submitted_by k current oracle db = rw (==_refl k, ==_refl current) refl

  -- Evidence of a dispute's respondent that is accepted came while it was pending, in time and
  -- with sound artifacts; and closing its window afterwards only sends the dispute to mediation,
  -- without a default judgment.
  pub submit_evidence_mediated :
      (later k : ℕ) (artifacts : List EvidenceArtifact) (e : Escrow) (db : Db R)
      → find k db.escrows ≡ some e
      → (r : Db R × EvidenceResponse)
      → submit_evidence ctx st sha256 (respondent e) k artifacts db ≡ ok r
      → (is_evidence_pending e.status ≡ true)
        × (passed ctx.now e.evidence_window_closes_at ≡ false)
        × (all_sound sha256 st.max_inline_evidence_bytes artifacts ≡ true)
        × (close_window later k e r.0 ≡ modify_escrow k (λ x. record x { status = disputed }) r.0)
  unfolding submit_evidence
  submit_evidence_mediated later k artifacts e db at = Ensures-or_raise _ _ _ λ e' at'.
      let same : e' ≡ e = some-injective e' e (sym at' ∙ at) in
      Ensures-raise_if _ _ _ λ party. Ensures-raise_if _ _ _ λ pending.
        Ensures-raise_if _ _ _ λ comparable. Ensures-raise_if _ _ _ λ in_time.
          Ensures-raise_if _ _ _ λ sound. Ensures-ok _ _ (
            ap (λ x. is_evidence_pending x.status) (sym same) ∙ ground (arith, pending),
            ap (λ x. passed ctx.now x.evidence_window_closes_at) (sym same) ∙ in_time,
            ground (arith, sound),
            close_window_mediated later k e
                (add_submission ctx st sha256 (new_submission k (respondent e) none ctx.now) db)
                (submitted_by k (respondent e) none db),
          )

  other_submitter :
      (k current : ℕ) (a : ℕ) (oracle : Option ℕ) (db : Db R)
      → current ≢ a
      → contains a (
          submitter_ids k
            (add_submission ctx st sha256 (new_submission k current oracle ctx.now) db).evidence)
        ≡ contains a (submitter_ids k db.evidence)
  unfolding add_submission
  other_submitter k current a oracle db ne = rw (==_refl k) (ground (arith, ne))

  untouched :
      (s : EvidenceSubmission) (db : Db R)
      → ((add_submission ctx st sha256 s db).escrows ≡ db.escrows)
        × ((add_submission ctx st sha256 s db).balances ≡ db.balances)
  unfolding add_submission
  untouched s db = (refl, refl)

  -- An oracle's evidence that is accepted counts as no evidence of the respondent, who is another
  -- account, and changes neither escrows nor balances.
  pub submit_oracle_evidence_neutral :
      (current k : ℕ) (artifacts : List EvidenceArtifact) (e : Escrow) (db : Db R)
      → current ≢ respondent e
      → (r : Db R × EvidenceResponse)
      → submit_oracle_evidence ctx st sha256 current k artifacts db ≡ ok r
      → (contains (respondent e) (submitter_ids k r.0.evidence)
          ≡ contains (respondent e) (submitter_ids k db.evidence))
        × (r.0.escrows ≡ db.escrows)
        × (r.0.balances ≡ db.balances)
  unfolding submit_oracle_evidence
  submit_oracle_evidence_neutral current k artifacts e db ne = Ensures-or_raise _ _ _ λ acct hacct.
      Ensures-raise_if _ _ _ λ oracle. Ensures-raise_if _ _ _ λ reputable.
        Ensures-or_raise _ _ _ λ e' at. Ensures-raise_if _ _ _ λ status.
          Ensures-raise_if _ _ _ λ sound. Ensures-ok _ _ (
            other_submitter k current (respondent e) (some current) db ne,
            (untouched (new_submission k current (some current) ctx.now) db).0,
            (untouched (new_submission k current (some current) ctx.now) db).1,
          )
