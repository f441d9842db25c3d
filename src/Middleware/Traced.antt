-- ===== src/Middleware/Traced.antt =====
-- app/__init__.py and app/services/audit_service.py: the id of a request in its response and in the audit
-- trail, and the headers of a response of the API.
use bank_flow_digital_bankin.Base.{
  String, some, Bool-cases, inl, inr, true, false, [], ◌∷◌, ◌≡◌, refl, arith, str_eq, eq_iff, ◌∙◌,
  sym,
}
use bank_flow_digital_bankin.Database.{Session, RequestContext}
use bank_flow_digital_bankin.Audit.{AuditEvent, audit_entry}
use bank_flow_digital_bankin.Configuration.Texts.{starts_with}
use bank_flow_digital_bankin.Middleware.{
  Headers, set_header, find_header, set_request_id, request_id_or, add_security_headers,
  after_request,
}

find-set_self : (n v : String) (h : Headers) → find_header n (set_header n v h) ≡ some v
find-set_self n v [] = ground (arith, eq_iff n n)
find-set_self n v ((m, w) ∷ rows) = elim (Bool-cases (str_eq m n)) [
  | inl y ↦ rw (y, y) refl
  | inr z ↦ rw (z, z) (find-set_self n v rows)
]

find-set_other :
    (n m v : String) (h : Headers)
    → str_eq m n ≡ false
    → find_header n (set_header m v h) ≡ find_header n h
find-set_other n m v [] d = rw d refl
find-set_other n m v ((k, w) ∷ rows) d = elim (Bool-cases (str_eq k m)) [
  | inl y ↦
      let same : k ≡ m = ground (arith, eq_iff k m, y) in
      let apart : str_eq k n ≡ false = rw same d in rw (y, apart) refl
  | inr z ↦ rw z (ground (arith, find-set_other n m v rows d))
]

module _ (path : String) (h : Headers) (api : starts_with "/api/" path ≡ true) where
  abbrev no_store : String
  no_store = "no-store, no-cache, must-revalidate, private"

  -- The headers after the third, the fourth and the last of the five that every response has.
  abbrev framed : Headers
  framed = set_header "X-Frame-Options" "DENY" (set_header "X-Content-Type-Options" "nosniff" h)

  abbrev guarded : Headers
  guarded = set_header "X-XSS-Protection" "1; mode=block" framed

  abbrev referred : Headers
  referred = set_header "Referrer-Policy" "strict-origin-when-cross-origin" guarded

  abbrev permissions : String
  permissions = "geolocation=(), camera=(), microphone=()"

  abbrev permitted : Headers
  permitted = set_header "Permissions-Policy" permissions referred

  abbrev uncached : Headers
  uncached = set_header "Cache-Control" no_store permitted

  secured_cache : find_header "Cache-Control" (add_security_headers path h) ≡ some no_store
  secured_cache = rw api (
      find-set_other "Cache-Control" "Pragma" "no-cache" uncached refl
      ∙ find-set_self "Cache-Control" no_store permitted)

  secured_frame : find_header "X-Frame-Options" (add_security_headers path h) ≡ some "DENY"
  secured_frame = rw api (
      find-set_other "X-Frame-Options" "Pragma" "no-cache" uncached refl
      ∙ find-set_other "X-Frame-Options" "Cache-Control" no_store permitted refl
      ∙ find-set_other "X-Frame-Options" "Permissions-Policy" permissions referred refl
      ∙ find-set_other "X-Frame-Options" "Referrer-Policy" "strict-origin-when-cross-origin" guarded
          refl
      ∙ find-set_other "X-Frame-Options" "X-XSS-Protection" "1; mode=block" framed refl
      ∙ find-set_self "X-Frame-Options" "DENY" (set_header "X-Content-Type-Options" "nosniff" h))

-- For a path of the API, a response carries the id that the request brought or, if that is missing
-- or empty, the new one; an audit entry of the request has the same id; and the response forbids
-- caching and framing.
pub after_request-traced :
    (e : AuditEvent) (s : Session) (uuid path : String) (c : RequestContext) (h : Headers)
    → s.context ≡ some (set_request_id uuid c)
    → starts_with "/api/" path ≡ true
    → let out = after_request (set_request_id uuid c) path h in
      (find_header "X-Request-ID" out ≡ some (request_id_or c.x_request_id uuid))
      × ((audit_entry e s).request_id ≡ find_header "X-Request-ID" out)
      × (find_header "Cache-Control" out ≡ some "no-store, no-cache, must-revalidate, private")
      × (find_header "X-Frame-Options" out ≡ some "DENY")
unfolding after_request set_request_id
after_request-traced e s uuid path c h here api =
    let id = request_id_or c.x_request_id uuid in
    let out = add_security_headers path h in
    let shown = find-set_self "X-Request-ID" id out in
    (
      shown,
      rw here (sym shown),
      find-set_other "Cache-Control" "X-Request-ID" id out refl ∙ secured_cache path h api,
      find-set_other "X-Frame-Options" "X-Request-ID" id out refl ∙ secured_frame path h api,
    )
