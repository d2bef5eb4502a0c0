-- ===== src/Secrets/Tests.antt =====
-- One drop, redeemed.
use knowlega.Base.{true, false, none, some, [], ◌∷◌, ◌≡◌, refl}
use knowlega.Secrets.Drops.{
  SecretDrop, Credential, Db, mint, peek, find_drop, redeem, create_credential,
}
use knowlega.Secrets.Redeem.{Outcome, redeem-Outcome, race, race-both}

abbrev token : SecretDrop
token = record {
  id = "d";
  owner_id = "u";
  org_id = "org:default";
  service = "mail";
  env_key = "";
  host = "";
  fields = [];
  purpose = "send";
  requested_by = "u";
  audience_scope_id = "s";
  scope_version = "";
  grant_mode = "once";
  destination = "";
  thread_ref = "";
  requires_token = true;
  created_at = 100;
}

abbrev empty : Db
empty = record { drops = []; drops_version = 0; credentials = []; credentials_version = 0 }

abbrev minted : Db
minted = record empty { drops = token ∷ []; drops_version = 1 }

mint_first : mint token empty ≡ (minted, true)
unfolding mint
mint_first = refl

mint_again : mint token minted ≡ (minted, false)
unfolding mint
mint_again = refl

peek_expired : peek 604900000000001 "d" minted ≡ none
unfolding peek
peek_expired = refl

redeemed : redeem 200000000000 "d" minted ≡ (record empty { drops_version = 2 }, some token)
unfolding redeem
redeemed = refl

abbrev credential : Credential
credential = record {
  id = "c";
  owner_id = "u";
  org_id = "org:default";
  service = "mail";
  key = "mail";
  values = "{}";
  granted_by = "u";
  granted_at = 200;
  destination = "";
}

stored :
    (create_credential credential (create_credential credential empty)).credentials
    ≡ credential ∷ []
unfolding create_credential
stored = refl

redeem-Outcome_example :
    Outcome 200000000000 300000000000 "d" "e" minted (redeem 200000000000 "d" minted)
redeem-Outcome_example = redeem-Outcome 200000000000 300000000000 "d" "e" minted refl

race-both_example : race 200000000000 200000000001 "d" minted ≡ (some token, some token)
race-both_example =
    race-both 200000000000 200000000001 "d" minted token (unfold find_drop in refl) refl refl
