-- ===== src/Rbac/Table.antt =====
-- The table of routes and permissions (internal/bootstrap/permissions.go, permissionMap), in the
-- order of the source.
use qeet_id.Base.{String, List, [], ◌∷◌, ◌++◌}
use qeet_id.Rbac.Enforce.{Entry}

abbrev entry : String → String → Entry
entry key perm = record { key = key; perm = perm }

unfoldable pub organisation_routes : List Entry
organisation_routes =
    entry "GET /v1/tenants/{id}" "tenant.read"
    ∷ entry "PATCH /v1/tenants/{id}" "tenant.write"
    ∷ entry "DELETE /v1/tenants/{id}" "tenant.write"
    ∷ entry "GET /v1/users" "user.read"
    ∷ entry "POST /v1/users" "user.write"
    ∷ entry "POST /v1/users/bulk" "user.write"
    ∷ entry "GET /v1/users/deleted" "user.read"
    ∷ entry "GET /v1/users/{id}" "user.read"
    ∷ entry "PATCH /v1/users/{id}" "user.write"
    ∷ entry "DELETE /v1/users/{id}" "user.write"
    ∷ entry "POST /v1/users/{id}/restore" "user.write"
    ∷ entry "DELETE /v1/users/{id}/purge" "user.write"
    ∷ entry "POST /v1/users/{id}/password" "user.write"
    ∷ entry "DELETE /v1/users/{id}/mfa" "user.write"
    ∷ entry "POST /v1/invites" "user.write"
    ∷ entry "GET /v1/tenants/{tenantID}/invites" "user.read"
    ∷ entry "DELETE /v1/invites/{id}" "user.write"
    ∷ entry "GET /v1/permissions" "role.read"
    ∷ entry "GET /v1/tenants/{tenantID}/roles" "role.read"
    ∷ entry "POST /v1/tenants/{tenantID}/roles" "role.write"
    ∷ entry "GET /v1/roles/{roleID}/permissions" "role.read"
    ∷ entry "POST /v1/roles/{roleID}/permissions/{permID}" "role.write"
    ∷ entry "DELETE /v1/roles/{roleID}/permissions/{permID}" "role.write"
    ∷ entry "POST /v1/users/{userID}/tenants/{tenantID}/roles/{roleID}" "role.write"
    ∷ entry "DELETE /v1/users/{userID}/tenants/{tenantID}/roles/{roleID}" "role.write"
    ∷ entry "GET /v1/users/{userID}/tenants/{tenantID}/permissions" "role.read"
    ∷ entry "GET /v1/check" "role.read"
    ∷ entry "GET /v1/tenants/{tenantID}/groups/{groupID}/roles" "role.read"
    ∷ entry "GET /v1/tenants/{tenantID}/abac/policies" "policy.read"
    ∷ entry "POST /v1/tenants/{tenantID}/abac/policies" "policy.write"
    ∷ entry "GET /v1/tenants/{tenantID}/abac/policies/{id}" "policy.read"
    ∷ entry "PATCH /v1/tenants/{tenantID}/abac/policies/{id}" "policy.write"
    ∷ entry "DELETE /v1/tenants/{tenantID}/abac/policies/{id}" "policy.write"
    ∷ []

unfoldable pub connection_routes : List Entry
connection_routes =
    entry "GET /v1/tenants/{tenantID}/relation-tuples" "role.read"
    ∷ entry "GET /v1/tenants/{tenantID}/relation-tuples/graph" "role.read"
    ∷ entry "POST /v1/tenants/{tenantID}/groups/{groupID}/roles/{roleID}" "role.write"
    ∷ entry "DELETE /v1/tenants/{tenantID}/groups/{groupID}/roles/{roleID}" "role.write"
    ∷ entry "POST /v1/groups" "group.write"
    ∷ entry "GET /v1/tenants/{tenantID}/groups" "group.read"
    ∷ entry "DELETE /v1/groups/{id}" "group.write"
    ∷ entry "POST /v1/groups/{id}/members/{userID}" "group.write"
    ∷ entry "DELETE /v1/groups/{id}/members/{userID}" "group.write"
    ∷ entry "GET /v1/groups/{id}/members" "group.read"
    ∷ entry "POST /v1/api-keys" "apikey.write"
    ∷ entry "GET /v1/tenants/{tenantID}/api-keys" "apikey.read"
    ∷ entry "DELETE /v1/api-keys/{id}" "apikey.write"
    ∷ entry "POST /v1/service-principals" "apikey.write"
    ∷ entry "GET /v1/tenants/{tenantID}/service-principals" "apikey.read"
    ∷ entry "DELETE /v1/service-principals/{id}" "apikey.write"
    ∷ entry "GET /v1/oidc/signing-keys" "connection.read"
    ∷ entry "POST /v1/oidc/clients" "connection.write"
    ∷ entry "GET /v1/tenants/{tenantID}/oidc/clients" "connection.read"
    ∷ entry "POST /v1/tenants/{tenantID}/oidc/clients" "connection.write"
    ∷ entry "GET /v1/tenants/{tenantID}/oidc/clients/{id}" "connection.read"
    ∷ entry "PATCH /v1/tenants/{tenantID}/oidc/clients/{id}" "connection.write"
    ∷ entry "DELETE /v1/tenants/{tenantID}/oidc/clients/{id}" "connection.write"
    ∷ entry "POST /v1/tenants/{tenantID}/oidc/clients/{id}/rotate-secret" "connection.write"
    ∷ entry "GET /v1/tenants/{tenantID}/oauth/grants" "connection.read"
    ∷ entry "DELETE /v1/tenants/{tenantID}/oauth/grants/{id}" "connection.write"
    ∷ entry "GET /v1/tenants/{tenantID}/oauth/devices" "connection.read"
    ∷ entry "DELETE /v1/tenants/{tenantID}/oauth/devices/{id}" "connection.write"
    ∷ entry "GET /v1/tenants/{tenantID}/saml" "connection.read"
    ∷ entry "POST /v1/tenants/{tenantID}/saml" "connection.write"
    ∷ entry "GET /v1/tenants/{tenantID}/saml/{id}" "connection.read"
    ∷ entry "PATCH /v1/tenants/{tenantID}/saml/{id}" "connection.write"
    ∷ entry "DELETE /v1/tenants/{tenantID}/saml/{id}" "connection.write"
    ∷ []

unfoldable pub policy_routes : List Entry
policy_routes =
    entry "GET /v1/tenants/{tenantID}/saml-providers" "connection.read"
    ∷ entry "POST /v1/tenants/{tenantID}/saml-providers" "connection.write"
    ∷ entry "GET /v1/tenants/{tenantID}/saml-providers/{id}" "connection.read"
    ∷ entry "PATCH /v1/tenants/{tenantID}/saml-providers/{id}" "connection.write"
    ∷ entry "DELETE /v1/tenants/{tenantID}/saml-providers/{id}" "connection.write"
    ∷ entry "GET /v1/tenants/{tenantID}/scim" "connection.read"
    ∷ entry "POST /v1/tenants/{tenantID}/scim/token" "connection.write"
    ∷ entry "DELETE /v1/tenants/{tenantID}/scim/token" "connection.write"
    ∷ entry "GET /v1/tenants/{tenantID}/scim/users" "connection.read"
    ∷ entry "POST /v1/tenants/{tenantID}/admin-portal/links" "connection.write"
    ∷ entry "GET /v1/tenants/{tenantID}/admin-portal/links" "connection.read"
    ∷ entry "DELETE /v1/tenants/{tenantID}/admin-portal/links/{id}" "connection.write"
    ∷ entry "GET /v1/tenants/{tenantID}/ldap" "connection.read"
    ∷ entry "POST /v1/tenants/{tenantID}/ldap" "connection.write"
    ∷ entry "GET /v1/tenants/{tenantID}/ldap/{id}" "connection.read"
    ∷ entry "PATCH /v1/tenants/{tenantID}/ldap/{id}" "connection.write"
    ∷ entry "DELETE /v1/tenants/{tenantID}/ldap/{id}" "connection.write"
    ∷ entry "POST /v1/tenants/{tenantID}/ldap/{id}/test" "connection.write"
    ∷ entry "GET /v1/tenants/{tenantID}/social/providers" "connection.read"
    ∷ entry "POST /v1/tenants/{tenantID}/social/providers" "connection.write"
    ∷ entry "GET /v1/tenants/{tenantID}/webhooks" "webhook.read"
    ∷ entry "POST /v1/webhooks" "webhook.write"
    ∷ entry "DELETE /v1/webhooks/{id}" "webhook.write"
    ∷ entry "POST /v1/webhooks/{id}/test" "webhook.write"
    ∷ entry "GET /v1/tenants/{tenantID}/secrets" "secret.read"
    ∷ entry "POST /v1/tenants/{tenantID}/secrets" "secret.write"
    ∷ entry "PATCH /v1/tenants/{tenantID}/secrets/{id}" "secret.write"
    ∷ entry "DELETE /v1/tenants/{tenantID}/secrets/{id}" "secret.write"
    ∷ entry "POST /v1/tenants/{tenantID}/secrets/{id}/reveal" "secret.read"
    ∷ entry "PUT /v1/tenants/{tenantID}/branding" "branding.write"
    ∷ entry "PUT /v1/tenants/{tenantID}/email-templates/{key}" "branding.write"
    ∷ entry "DELETE /v1/tenants/{tenantID}/email-templates/{key}" "branding.write"
    ∷ entry "POST /v1/tenants/{tenantID}/email-templates/{key}/preview" "branding.write"
    ∷ []

unfoldable pub operation_routes : List Entry
operation_routes =
    entry "GET /v1/tenants/{tenantID}/policy" "policy.read"
    ∷ entry "PUT /v1/tenants/{tenantID}/policy" "policy.write"
    ∷ entry "GET /v1/tenants/{tenantID}/auth-policy" "policy.read"
    ∷ entry "PUT /v1/tenants/{tenantID}/auth-policy" "policy.write"
    ∷ entry "GET /v1/tenants/{tenantID}/ip-rules" "policy.read"
    ∷ entry "POST /v1/tenants/{tenantID}/ip-rules" "policy.write"
    ∷ entry "DELETE /v1/tenants/{tenantID}/ip-rules/{ruleID}" "policy.write"
    ∷ entry "PUT /v1/tenants/{tenantID}/ip-rules/config" "policy.write"
    ∷ entry "POST /v1/tenants/{tenantID}/ip-rules/check" "policy.read"
    ∷ entry "GET /v1/tenants/{tenantID}/retention" "policy.read"
    ∷ entry "PUT /v1/tenants/{tenantID}/retention" "policy.write"
    ∷ entry "POST /v1/tenants/{tenantID}/retention/preview" "policy.read"
    ∷ entry "POST /v1/tenants/{tenantID}/retention/run" "policy.write"
    ∷ entry "POST /v1/gdpr/purge" "gdpr.write"
    ∷ entry "GET /v1/tenants/{tenantID}/gdpr/purge" "gdpr.write"
    ∷ entry "DELETE /v1/gdpr/purge/{id}" "gdpr.write"
    ∷ entry "GET /v1/tenants/{tenantID}/audit" "audit.read"
    ∷ entry "GET /v1/tenants/{tenantID}/audit/verify" "audit.read"
    ∷ entry "GET /v1/admin/outbox/dlq" "audit.read"
    ∷ entry "GET /v1/activity" "audit.read"
    ∷ entry "GET /v1/activity/stream" "audit.read"
    ∷ entry "GET /v1/tenants/{tenantID}/audit/anomalies" "audit.read"
    ∷ entry "GET /v1/tenants/{tenantID}/audit/anomalies/summary" "audit.read"
    ∷ entry "POST /v1/tenants/{tenantID}/audit/anomalies/{id}/resolve" "audit.write"
    ∷ entry "GET /v1/tenants/{tenantID}/audit/anomaly-settings" "audit.read"
    ∷ entry "PUT /v1/tenants/{tenantID}/audit/anomaly-settings" "audit.write"
    ∷ entry "GET /v1/tenants/{tenantID}/billing/subscription" "billing.read"
    ∷ entry "PUT /v1/tenants/{tenantID}/billing/subscription" "billing.write"
    ∷ entry "POST /v1/tenants/{tenantID}/billing/subscription/cancel" "billing.write"
    ∷ entry "GET /v1/tenants/{tenantID}/billing/invoices" "billing.read"
    ∷ entry "GET /v1/tenants/{tenantID}/analytics/overview" "analytics.read"
    ∷ []

unfoldable pub permission_map : List Entry
unfolding organisation_routes connection_routes policy_routes operation_routes
permission_map = organisation_routes ++ (connection_routes ++ (policy_routes ++ (operation_routes)))
