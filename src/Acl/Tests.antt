-- ===== src/Acl/Tests.antt =====
-- Grants of two resources.
use knowlega.Base.{any, ◌≡◌, refl, true, List, [], ◌∷◌}
use knowlega.Acl.Same.{same_grants-any}
use knowlega.Acl.Grants.{
  same_grant, same_grants, Grant, replaced, not_current, replace_resource, revoke, delete_resource,
  AdminGrant, put_admin_grant, delete_admin_grant,
}
use knowlega.Acl.Replaced.{Swapped, replace_resource-Swapped}

abbrev read_a : Grant
read_a = record {
  owner_scope_id = "o";
  path = "/a";
  grantee_scope_id = "u";
  permission = "read";
  granted_by = "root";
}

abbrev write_a : Grant
write_a = record read_a { permission = "write" }

abbrev read_b : Grant
read_b = record read_a { path = "/b" }

abbrev rows : List Grant
rows = read_a ∷ read_b ∷ []

swapped :
    replace_resource "o" "/a" (read_a ∷ []) (write_a ∷ []) rows ≡ (read_b ∷ write_a ∷ [], replaced)
unfolding replace_resource
swapped = refl

stale : replace_resource "o" "/a" [] (write_a ∷ []) rows ≡ (rows, not_current)
unfolding replace_resource
stale = refl

one_left : revoke "o" "/a" "u" rows ≡ delete_resource "o" "/a" rows
unfolding revoke delete_resource
one_left = refl

abbrev admin : AdminGrant
admin = record {
  principal_id = "p";
  scope_id = "s";
  role = "admin";
  granted_by = "";
  created_at = 0;
}

back : delete_admin_grant "p" "s" "admin" (put_admin_grant admin []) ≡ []
unfolding delete_admin_grant put_admin_grant
back = refl

replace_resource-Swapped_example :
    Swapped "o" "/a"
      (write_a ∷ [])
      rows
      (replace_resource "o" "/a" (read_a ∷ []) (write_a ∷ []) rows)
replace_resource-Swapped_example =
    replace_resource-Swapped "o" "/a" (read_a ∷ []) (write_a ∷ []) rows

same_rows : same_grants rows (read_b ∷ read_a ∷ []) ≡ true
unfolding same_grants
same_rows = refl

same_grants-any_example :
    any (same_grant write_a) (read_b ∷ read_a ∷ []) ≡ any (same_grant write_a) rows
same_grants-any_example =
    same_grants-any rows (read_b ∷ read_a ∷ []) write_a (refl, (refl, tt)) same_rows
