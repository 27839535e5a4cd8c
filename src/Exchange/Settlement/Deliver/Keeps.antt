-- ===== src/Exchange/Settlement/Deliver/Keeps.antt =====
-- About `deliver` of exchange/routes/settlement.py.
use a2a_settlement.Base.{
  ℕ, ◌≡◌, ◌⊎◌, inl, inr, Option, refl, true, none, some, ==→eq, ==_refl, arith,
}
use a2a_settlement.Int.{int_laws, eq_of_parts}
use a2a_settlement.Table.{find}
use a2a_settlement.Table.Laws.{find-modify_self}
use a2a_settlement.Exchange.Errors.{
  ok, raise_if, or_raise, ◌>>=◌, ◌>>◌, Ensures-or_raise, Ensures-raise_if, Ensures-ok,
}
use a2a_settlement.Exchange.Models.{AttestationLevel, Escrow, held, Db}
use a2a_settlement.Exchange.Config.{Context}
use a2a_settlement.Exchange.Ledger.{net, gap, modify_escrow}
use a2a_settlement.Exchange.Ledger.Net.{net-modify_escrow}
use a2a_settlement.Exchange.Ledger.Gap.{gap-modify_escrow}
use a2a_settlement.Exchange.Observer.{is_held}
use a2a_settlement.Exchange.Settlement.Deliver.{
  DeliverRequest, DeliverResponse, level_passes, mark_delivered, deliver,
}
use a2a_settlement.Exchange.Provenance.{Provenance, meets, result_of, verify_provenance}
use Prim.Native.String.{String}

-- There is no provenance, or it has the required level at least.
abbrev pub IsOfLevel : {R : Type 0} → Option AttestationLevel → Option (Provenance R) → Type 0
IsOfLevel {R} required given =
    (given ≡ none)
    ⊎ ((p : Provenance R) × (given ≡ some p) × (meets required p.attestation_level ≡ true))

passes-IsOfLevel :
    {R : Type 0} (required : Option AttestationLevel) (given : Option (Provenance R))
    → level_passes required given ≡ true
    → IsOfLevel required given
passes-IsOfLevel required none h = inl refl
passes-IsOfLevel required (some p) h = inr (p, refl, h)

module _ {R : Type 0} (ctx : Context R) (sha256 : String → String)
    (extract_domain : String → String) (ratio : ℕ → ℕ → R) where
  -- What a delivery changes: the escrow's row, which stays held for the same sums.
  abbrev pub Delivered : ℕ → ℕ → ℕ → DeliverRequest R → Db R → Db R → Type 0
  Delivered current k a req db db' =
      (e : Escrow) × (find k db.escrows ≡ some e)
      × (e.provider_id ≡ current)
      × (is_held e.status ≡ true)
      × IsOfLevel e.required_attestation_level req.provenance
      × (find k db'.escrows
          ≡ some (record e {
            delivered_content = some req.content;
            provenance_result = result_of (
                verify_provenance ctx.floats sha256 extract_domain ratio req.provenance req.content
                  e.required_attestation_level);
            delivered_at = some ctx.now;
          }))
      × (net db' ≡ net db)
      × (gap a db' ≡ gap a db)

  row_of :
      (k : ℕ) (req : DeliverRequest R) (e : Escrow) (db : Db R)
      → find k db.escrows ≡ some e
      → find k (modify_escrow k (mark_delivered ctx sha256 extract_domain ratio req) db).escrows
        ≡ some (mark_delivered ctx sha256 extract_domain ratio req e)
  unfolding modify_escrow
  row_of k req e db at =
      find-modify_self k (mark_delivered ctx sha256 extract_domain ratio req) db.escrows e at

  -- A delivery that succeeds was made by the provider of a held escrow, with provenance of the
  -- required level if with any; it stores the content, the verification's result and the time on
  -- the row and leaves its other fields as they were, and changes neither the net position nor
  -- any account's gap.
  pub deliver_keeps :
      (current k a : ℕ) (req : DeliverRequest R) (db : Db R)
      → (r : Db R × DeliverResponse)
      → deliver ctx sha256 extract_domain ratio current k req db ≡ ok r
      → Delivered current k a req db r.0
  unfolding deliver
  deliver_keeps current k a req db =
      let mark = mark_delivered ctx sha256 extract_domain ratio req in
      Ensures-or_raise _ _ _ λ e at. Ensures-raise_if _ _ _ λ provider.
        Ensures-raise_if _ _ _ λ open_status. Ensures-raise_if _ _ _ λ level. Ensures-ok _ _ (
          e,
          at,
          ==→eq e.provider_id current (ground (arith, provider)),
          ground (arith, open_status),
          passes-IsOfLevel e.required_attestation_level req.provenance (ground (arith, level)),
          row_of k req e db at,
          net-modify_escrow k mark db,
          eq_of_parts _ _ (omega (int_laws, gap-modify_escrow a k mark db e at)),
        )

  -- The provider of a held escrow can deliver without provenance, whatever attestation level the
  -- escrow requires: the handler returns, and the row has no provenance result.
  pub deliver_without_provenance :
      (current k : ℕ) (req : DeliverRequest R) (db : Db R) (e : Escrow)
      → find k db.escrows ≡ some e
      → e.provider_id ≡ current
      → e.status ≡ held
      → req.provenance ≡ none
      → (r : Db R × DeliverResponse) × (deliver ctx sha256 extract_domain ratio current k req db
          ≡ ok r)
        × ((mark_delivered ctx sha256 extract_domain ratio req e).provenance_result ≡ none)
        × (find k r.0.escrows ≡ some (mark_delivered ctx sha256 extract_domain ratio req e))
  unfolding deliver ◌>>=◌ ◌>>◌ raise_if or_raise modify_escrow verify_provenance
  deliver_without_provenance current k req db e at provider status bare = (
    (
      modify_escrow k (mark_delivered ctx sha256 extract_domain ratio req) db,
      record { escrow_id = k; status = e.status; delivered_at = ctx.now },
    ),
    rw (deliver, at, or_raise, provider, ==_refl current, status, bare) refl,
    rw bare refl,
    find-modify_self k (mark_delivered ctx sha256 extract_domain ratio req) db.escrows e at,
  )
