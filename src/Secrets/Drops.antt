-- ===== src/Secrets/Drops.antt =====
-- The tables secret_drops and keychain_credentials with the version counters that each change bumps.
-- The clock is in nanoseconds; a drop's time of creation in seconds, as the server mints it.
use knowlega.Base.{
  ℕ, ◌+◌, ◌*◌, String, Bool, true, false, not, Option, none, some, List, [], ◌∷◌, ◌++◌, ◌==◌, ltb,
  if◌then◌else◌, any, keep_if,
}

pub record SecretDropField : Type 0 where
  pub key : String
  pub label : String
  pub is_secret : Bool

pub record SecretDrop : Type 0 where
  pub id : String
  pub owner_id : String
  pub org_id : String
  pub service : String
  pub env_key : String
  pub host : String
  pub fields : List SecretDropField
  pub purpose : String
  pub requested_by : String
  pub audience_scope_id : String
  pub scope_version : String
  pub grant_mode : String
  pub destination : String
  pub thread_ref : String
  pub requires_token : Bool
  pub created_at : ℕ

pub record Credential : Type 0 where
  pub id : String
  pub owner_id : String
  pub org_id : String
  pub service : String
  pub key : String
  pub values : String
  pub granted_by : String
  pub granted_at : ℕ
  pub destination : String

pub record Db : Type 0 where
  pub drops : List SecretDrop
  pub drops_version : ℕ
  pub credentials : List Credential
  pub credentials_version : ℕ

-- 7 * 24 * time.Hour
abbrev pub secret_drop_ttl : ℕ
secret_drop_ttl = 604800000000000

abbrev pub is_expired : ℕ → SecretDrop → Bool
is_expired now d = ltb (d.created_at * 1000000000 + secret_drop_ttl) now

unfoldable pub find_drop : String → List SecretDrop → Option SecretDrop
find_drop id [] = none
find_drop id (d ∷ drops) = if d.id == id then some d else find_drop id drops

-- The id is the primary key; a second INSERT of it is an error, and nothing changes.
unfoldable pub mint : SecretDrop → Db → Db × Bool
mint d db =
    if any (λ e. e.id == d.id) db.drops
    then (db, false)
    else (record db { drops = db.drops ++ d ∷ []; drops_version = db.drops_version + 1 }, true)

abbrev pub unless_expired : ℕ → SecretDrop → Option SecretDrop
unless_expired now d = if is_expired now d then none else some d

unfoldable pub peek : ℕ → String → Db → Option SecretDrop
unfolding find_drop
peek now id db = elim (find_drop id db.drops) [ none ↦ none | some d ↦ unless_expired now d ]

-- DELETE FROM secret_drops WHERE id=$1; how many rows it deletes is not looked at.
abbrev pub delete_drop : String → Db → Db
delete_drop id db = record db {
  drops = keep_if (λ d. not (d.id == id)) db.drops;
  drops_version = db.drops_version + 1;
}

-- Redeem is a transaction of several statements: the SELECT, which takes no lock, and what the
-- expiry test makes of it;
unfoldable pub redeem_select : ℕ → String → Db → Option SecretDrop
unfolding peek
redeem_select now id db = peek now id db

-- then the DELETE and the commit, and the answer.
unfoldable pub redeem_commit : String → Option SecretDrop → Db → Db × Option SecretDrop
redeem_commit id none db = (db, none)
redeem_commit id (some d) db = ((if d.grant_mode == "once" then delete_drop id db else db), some d)

-- With no other transaction in between.
unfoldable pub redeem : ℕ → String → Db → Db × Option SecretDrop
unfolding redeem_select redeem_commit
redeem now id db = redeem_commit id (redeem_select now id db) db

unfoldable pub put_credential : Credential → List Credential → List Credential
put_credential c [] = c ∷ []
put_credential c (e ∷ rest) = if e.id == c.id then c ∷ rest else e ∷ put_credential c rest

unfoldable pub create_credential : Credential → Db → Db
unfolding put_credential
create_credential c db = record db {
  credentials = put_credential c db.credentials;
  credentials_version = db.credentials_version + 1;
}
