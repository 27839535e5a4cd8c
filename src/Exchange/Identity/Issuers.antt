-- ===== src/Exchange/Identity/Issuers.antt =====
-- `IssuerRegistry` of exchange/identity/issuer_registry.py. The table is keyed by the issuer's DID.
use a2a_settlement.Base.{
  ℕ, Bool, true, false, Option, none, some, List, [], ◌∷◌, ◌++◌, ◌&&◌, if◌then◌else◌, is_some,
}
use Prim.Native.String.{String}
use text.Mathlib.Text.{◌==◌ as str_eq}

pub record TrustedIssuer : Type 0 where
  pub did : String
  pub name : String
  pub issuer_type : String
  pub accepted_claims : List String
  pub active : Bool
  pub added_at : ℕ
  pub added_by : String
  pub notes : Option String

unfoldable pub get_issuer : String → List TrustedIssuer → Option TrustedIssuer
get_issuer did [] = none
get_issuer did (i ∷ is) = if str_eq i.did did then some i else get_issuer did is

unfoldable pub get_all_active : List TrustedIssuer → List TrustedIssuer
get_all_active [] = []
get_all_active (i ∷ is) = if i.active then i ∷ get_all_active is else get_all_active is

unfoldable pub get_active_dids : List TrustedIssuer → List String
get_active_dids [] = []
get_active_dids (i ∷ is) = if i.active then i.did ∷ get_active_dids is else get_active_dids is

unfoldable pub add_issuer : TrustedIssuer → List TrustedIssuer → List TrustedIssuer
add_issuer i is = is ++ (i ∷ [])

-- Writes the row of the DID, and tells whether there is one.
unfoldable pub set_active : Bool → String → List TrustedIssuer → List TrustedIssuer
set_active b did [] = []
set_active b did (i ∷ is) =
    if str_eq i.did did then record i { active = b } ∷ is else i ∷ set_active b did is

unfoldable pub deactivate_issuer : String → List TrustedIssuer → List TrustedIssuer × Bool
unfolding set_active get_issuer
deactivate_issuer did is =
    if is_some (get_issuer did is) then (set_active false did is, true) else (is, false)

unfoldable pub reactivate_issuer : String → List TrustedIssuer → List TrustedIssuer × Bool
unfolding set_active get_issuer
reactivate_issuer did is =
    if is_some (get_issuer did is) then (set_active true did is, true) else (is, false)

unfoldable pub is_trusted : String → List TrustedIssuer → Bool
is_trusted did [] = false
is_trusted did (i ∷ is) = if str_eq i.did did && i.active then true else is_trusted did is

abbrev pub initial_issuer : ℕ → TrustedIssuer
initial_issuer now = record {
  did = "did:web:exchange.a2a-settlement.org";
  name = "A2A-SE Exchange (Self)";
  issuer_type = "exchange";
  accepted_claims = "KYA-Level-2-Verified" ∷ [];
  active = true;
  added_at = now;
  added_by = "system";
  notes = none;
}

unfoldable pub seed_initial : ℕ → List TrustedIssuer → List TrustedIssuer
seed_initial now [] = initial_issuer now ∷ []
seed_initial now (i ∷ is) = i ∷ is
