-- ===== src/Api/Admin/Laws.antt =====
-- Who may administer accounts.
use cyber_threat_intelligenc.Prelude.{
  ◌≡◌, refl, ◌∙◌, sym, ◌⊎◌, String, true, false, ◌==◌, string_eq, Option, some, Bool-cases, inl,
  inr,
}
use cyber_threat_intelligenc.Prelude.Text.{Text}
use cyber_threat_intelligenc.Errors.{ok, is_ok, Result-cases}
use cyber_threat_intelligenc.Security.Rbac.{
  admin, parse_role, admin_manage, has_permission, role_eq, has_permission-eq-allowed,
}
use cyber_threat_intelligenc.Security.Tokens.{Jwt, TokenService}
use cyber_threat_intelligenc.Auth.Store.{Backend}
use cyber_threat_intelligenc.Auth.Login.{Moment}
use cyber_threat_intelligenc.Auth.Principal.{CurrentPrincipal, get_current_principal, require}
use cyber_threat_intelligenc.Auth.Principal.Laws.{IsLive, principal-IsLive}
use cyber_threat_intelligenc.Api.Admin.{Request, authorized, call}

manages-admin :
    (role : String) → has_permission role admin_manage ≡ true → parse_role role ≡ some admin
unfolding parse_role
manages-admin role h =
    let is_admin : (role == "admin") ≡ true =
      sym (has_permission-eq-allowed role admin_manage) ∙ h in
    rw is_admin refl

module _ (J : Jwt) (sha256 : Text → String) (tokens : TokenService) (at : Moment) where
  -- Any request to list, read or change accounts either comes from a principal with the role of
  -- an admin, whose account is there and active, or gets an error and changes nothing: the state
  -- is the one that finding out the principal leaves.
  pub call-needs_admin :
      (credentials : Option J.Token) (x_api_key : Text) (request : Request) (b : Backend)
      → let found = get_current_principal J sha256 tokens at credentials x_api_key b in
        let after = call J sha256 tokens at credentials x_api_key request b in
        ((p : CurrentPrincipal) × (found.0 ≡ ok p) × (parse_role p.role ≡ some admin) × IsLive b p)
        ⊎ ((is_ok after.0 ≡ false) × (after.1 ≡ found.1))
  unfolding call authorized require
  call-needs_admin credentials x_api_key request b =
      elim (Result-cases (get_current_principal J sha256 tokens at credentials x_api_key b).0) [
        | inr (e, failed) ↦ inr (rw failed refl, rw failed refl)
        | inl (p, found) ↦ elim (Bool-cases (has_permission p.role admin_manage)) [
          | inr refused ↦ inr (rw (found, refused) refl, rw (found, refused) refl)
          | inl granted ↦ inl (
            p,
            found,
            manages-admin p.role granted,
            principal-IsLive J sha256 tokens at credentials x_api_key p b found,
          )
        ]
      ]
