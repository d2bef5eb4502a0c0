-- ===== src/Acl/Grants.antt =====
-- The tables acl_grants and admin_grants as lists of rows. A statement succeeds as a whole: each
-- method is one statement, or a transaction that holds the lock of the resource.
use knowlega.Base.{
  ℕ, String, Bool, true, false, not, ◌&&◌, ◌||◌, List, [], ◌∷◌, ◌++◌, ◌==◌, ◌=ℕ◌, if◌then◌else◌,
  length, any, keep_if,
}

pub record Grant : Type 0 where
  pub owner_scope_id : String
  pub path : String
  pub grantee_scope_id : String
  pub permission : String
  pub granted_by : String

abbrev pub same_grant : Grant → Grant → Bool
same_grant g h =
    g.owner_scope_id == h.owner_scope_id
    && g.path == h.path
    && g.grantee_scope_id == h.grantee_scope_id
    && g.permission == h.permission
    && g.granted_by == h.granted_by

-- The unique key of the table.
abbrev pub same_key : Grant → Grant → Bool
same_key g h =
    g.owner_scope_id == h.owner_scope_id
    && g.path == h.path
    && g.grantee_scope_id == h.grantee_scope_id
    && g.permission == h.permission

abbrev pub all_found : List Grant → List Grant → Bool
all_found [] right = true
all_found (g ∷ left) right = any (same_grant g) right && all_found left right

unfoldable pub same_grants : List Grant → List Grant → Bool
same_grants left right = length left =ℕ length right && all_found left right

abbrev pub of_resource : String → String → Grant → Bool
of_resource owner path g = g.owner_scope_id == owner && g.path == path

abbrev pub known_permission : Grant → Bool
known_permission g = g.permission == "read" || g.permission == "write"

pub data Replaced : Type 0 where
  replaced not_current invalid_grant key_taken : Replaced

-- The INSERT of each grant in turn; an error of one ends the transaction.
unfoldable pub insert_grants : String → String → List Grant → List Grant → List Grant × Replaced
insert_grants owner path [] rows = (rows, replaced)
insert_grants owner path (g ∷ grants) rows =
    let rest = insert_grants owner path grants (rows ++ g ∷ []) in
    if not (of_resource owner path g) || not (known_permission g)
    then (rows, invalid_grant)
    else (if any (same_key g) rows then (rows, key_taken) else rest)

abbrev pub committed : List Grant → List Grant × Replaced → List Grant × Replaced
committed before (rows, replaced) = (rows, replaced)
committed before (rows, not_current) = (before, not_current)
committed before (rows, invalid_grant) = (before, invalid_grant)
committed before (rows, key_taken) = (before, key_taken)

unfoldable pub replace_resource :
    String → String → List Grant → List Grant → List Grant → List Grant × Replaced
unfolding same_grants insert_grants
replace_resource owner path expected replacement rows =
    if same_grants (keep_if (of_resource owner path) rows) expected
    then committed rows
        (insert_grants owner path replacement (keep_if (λ g. not (of_resource owner path g)) rows))
    else (rows, not_current)

-- The rows, and whether the grant is valid.
unfoldable pub put : Grant → List Grant → List Grant × Bool
put g rows =
    if known_permission g
    then ((if any (same_key g) rows then rows else rows ++ g ∷ []), true)
    else (rows, false)

abbrev pub is_revoked : String → String → String → Grant → Bool
is_revoked owner path grantee g = of_resource owner path g && g.grantee_scope_id == grantee

unfoldable pub revoke : String → String → String → List Grant → List Grant
revoke owner path grantee rows = keep_if (λ g. not (is_revoked owner path grantee g)) rows

unfoldable pub delete_resource : String → String → List Grant → List Grant
delete_resource owner path rows = keep_if (λ g. not (of_resource owner path g)) rows

pub record AdminGrant : Type 0 where
  pub principal_id : String
  pub scope_id : String
  pub role : String
  pub granted_by : String
  pub created_at : ℕ

abbrev pub same_admin : AdminGrant → AdminGrant → Bool
same_admin g h = g.principal_id == h.principal_id && g.scope_id == h.scope_id && g.role == h.role

-- ON CONFLICT DO UPDATE: the row of the key is replaced.
unfoldable pub put_admin_grant : AdminGrant → List AdminGrant → List AdminGrant
put_admin_grant g [] = g ∷ []
put_admin_grant g (h ∷ rows) = if same_admin h g then g ∷ rows else h ∷ put_admin_grant g rows

unfoldable pub delete_admin_grant : String → String → String → List AdminGrant → List AdminGrant
delete_admin_grant principal scope role rows =
    keep_if (λ h. not (h.principal_id == principal && h.scope_id == scope && h.role == role)) rows
