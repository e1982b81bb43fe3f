-- ===== src/Http/Admin/Laws.antt =====
-- Who may reach the cases of the admin handler.
use kd_server.Common.{
  ℕ, ◌≡◌, refl, ap, ◌⊎◌, inl, inr, Bool, true, false, Option, none, some, List, Bool-cases, Result,
  ok, err,
}
use kd_server.Text.{Text, codes, Casing}
use kd_server.Http.Sessions.{
  AdminAuthenticator, Cookie, login, valid_session, after_check, admin_middleware,
}
use kd_server.Http.Admin.{
  LoginRequest, AdminRequest, AdminPage, Services, is_route, protected, login_case, after_login,
  admin_api_handler,
}
use kd_server.Http.{Reply, failed}

module _ ⦃u : Casing⦄ {S X : Type 0} (services : Services S X) where
  -- A login touches the sessions only.
  login_case-stays :
      (now later : ℕ) (random : Result (List ℕ)) (body : Option LoginRequest)
      (a : AdminAuthenticator) (s : S)
      → (login_case services now later random body (a, s)).0.1 ≡ s
  login_case-stays now later random none a s = refl
  login_case-stays now later random (some q) a s =
      after_login-stays (login q.username q.password now later random a)
    where
      after_login-stays :
          (x : AdminAuthenticator × Result Cookie) → (after_login services s x).0.1 ≡ s
      after_login-stays (b, ok cookie) = refl
      after_login-stays (b, err e) = refl

  -- What the middleware lets through.
  abbrev pub Admitted :
      ℕ
      → AdminRequest
      → AdminAuthenticator
      → S
      → (AdminAuthenticator × S) × Reply (AdminPage X)
      → Type 0
  Admitted now r a s out =
      (token : Text) × (r.cookie ≡ some token)
      × ((valid_session token now a).1 ≡ true)
      × (out.0.1 ≡ (protected services r s).0)
      × (out.1 ≡ (protected services r s).1)

  middleware-Admitted :
      (now : ℕ) (r : AdminRequest) (cookie : Option Text) (a : AdminAuthenticator) (s : S)
      → r.cookie ≡ cookie
      → Admitted now r a s (admin_middleware (protected services r) cookie now (a, s))
        ⊎ (((admin_middleware (protected services r) cookie now (a, s)).0.1 ≡ s)
            × ((admin_middleware (protected services r) cookie now (a, s)).1
                ≡ failed 401 "admin login required"))
  unfolding admin_middleware
  middleware-Admitted now r none a s h = inr (refl, refl)
  middleware-Admitted now r (some token) a s h = checked_session (valid_session token now a) refl
    where
      checked_session :
          (x : AdminAuthenticator × Bool)
          → valid_session token now a ≡ x
          → Admitted now r a s (after_check (protected services r) s x)
            ⊎ (((after_check (protected services r) s x).0.1 ≡ s)
                × ((after_check (protected services r) s x).1 ≡ failed 401 "admin login required"))
      checked_session (b, true) q =
          inl (token, h, ap (λ (x : AdminAuthenticator × Bool). x.1) q, refl, refl)
      checked_session (b, false) q = inr (refl, refl)

  -- A request either carries the cookie of a valid session, and then is answered by the case of its path
  -- and method; or it leaves tenants, keys and documents as they were, and is a login, a logout, or
  -- answered with 401.
  pub admin_api_handler-Admitted :
      (now later : ℕ) (random : Result (List ℕ)) (r : AdminRequest) (a : AdminAuthenticator) (s : S)
      → Admitted now r a s (admin_api_handler services now later random r (a, s))
        ⊎ (((admin_api_handler services now later random r (a, s)).0.1 ≡ s)
            × ((is_route r (codes "/admin/api/login") (codes "POST") ≡ true)
                ⊎ (is_route r (codes "/admin/api/logout") (codes "POST") ≡ true)
                ⊎ ((admin_api_handler services now later random r (a, s)).1
                    ≡ failed 401 "admin login required")))
  unfolding admin_api_handler
  admin_api_handler-Admitted now later random r a s =
      elim (Bool-cases (is_route r (codes "/admin/api/login") (codes "POST"))) [
        | inl y ↦ inr (rw y (login_case-stays now later random r.login_body a s), inl y)
        | inr n ↦ elim (Bool-cases (is_route r (codes "/admin/api/logout") (codes "POST"))) [
          | inl y ↦ inr (rw (n, y) refl, inr (inl y))
          | inr m ↦
              rw (n, m)
                (elim (middleware-Admitted now r r.cookie a s refl) [
                  | inl admitted ↦ inl admitted
                  | inr (stays, refused_) ↦ inr (stays, inr (inr refused_))
                ])
        ]
      ]
