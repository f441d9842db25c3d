-- ===== src/Middleware.antt =====
-- app/__init__.py: what `create_app` puts before and after every request, and the answers that no route
-- gives: the root, the health check, the refusals of tokens and of the rate limit, and an unknown path.
pub mod Traced
use bank_flow_digital_bankin.Base.{
  ℕ, String, Option, none, some, List, [], ◌∷◌, str_eq, if◌then◌else◌,
}
use bank_flow_digital_bankin.Models.{Report}
use bank_flow_digital_bankin.Database.{RequestContext, Action}
use bank_flow_digital_bankin.Reconcile.{reconcile_system_balances}
use bank_flow_digital_bankin.Transfer.{truthy}
use bank_flow_digital_bankin.Configuration.Texts.{starts_with}

-- `request.headers.get("X-Request-ID") or str(uuid.uuid4())`
abbrev pub request_id_or : Option String → String → String
request_id_or header uuid = elim (truthy header) [ none ↦ uuid | some t ↦ t ]

-- `g.request_id = req_id`
unfoldable pub set_request_id : (uuid : String) → RequestContext → RequestContext
set_request_id uuid c = record c { traced_request_id = some (request_id_or c.x_request_id uuid) }

abbrev pub Headers : Type 0
Headers = List (String × String)

-- `response.headers[name] = value`
abbrev pub set_header : String → String → Headers → Headers
set_header name value [] = (name, value) ∷ []
set_header name value ((n, v) ∷ rows) =
    let rest = set_header name value rows in
    if str_eq n name then (n, value) ∷ rows else (n, v) ∷ rest

abbrev pub find_header : String → Headers → Option String
find_header name [] = none
find_header name ((n, v) ∷ rows) =
    let rest = find_header name rows in if str_eq n name then some v else rest

-- `if hasattr(g, "request_id"): ...`
abbrev pub attach_request_id : RequestContext → Headers → Headers
attach_request_id c h = elim c.traced_request_id [
  | none ↦ h
  | some id ↦ set_header "X-Request-ID" id h
]

abbrev pub no_caching : Headers → Headers
no_caching h =
    set_header "Pragma" "no-cache"
      (set_header "Cache-Control" "no-store, no-cache, must-revalidate, private" h)

abbrev pub add_security_headers : (path : String) → Headers → Headers
add_security_headers path h =
    let secured = set_header "Permissions-Policy" "geolocation=(), camera=(), microphone=()" (
      set_header "Referrer-Policy" "strict-origin-when-cross-origin" (
        set_header "X-XSS-Protection" "1; mode=block" (
          set_header "X-Frame-Options" "DENY"
            (set_header "X-Content-Type-Options" "nosniff" h)))) in
    if starts_with "/api/" path then no_caching secured else secured

-- The functions after a request run in the reverse of the order in which they were registered.
unfoldable pub after_request : RequestContext → (path : String) → Headers → Headers
after_request c path h = attach_request_id c (add_security_headers path h)

-- A JSON object of texts with its status.
pub record Answer : Type 0 where
  pub status : ℕ
  pub fields : List (String × String)

abbrev pub answer : ℕ → List (String × String) → Answer
answer code fields = record { status = code; fields = fields }

unfoldable pub root_index : Answer
root_index =
    answer 200
      (("service", "BankFlow API") ∷ ("status", "ONLINE") ∷ ("health", "/api/v1/health") ∷ [])

-- With the request's id, or null.
unfoldable pub health_check : RequestContext → Answer × Option String
health_check c = (
  answer 200 (
      ("status", "HEALTHY")
      ∷ ("service", "BankFlow API")
      ∷ ("database_engine", "MySQL (InnoDB)")
      ∷ ("version", "1.1.0")
      ∷ []),
  c.traced_request_id,
)

pub data TokenFailure : Type 0 where
  token_missing token_invalid token_expired : TokenFailure

-- The three loaders of the JWT extension.
unfoldable pub refuse_token : TokenFailure → Answer
refuse_token token_missing =
    answer 401
      (("error", "Authorization token is missing.") ∷ ("code", "AUTHORIZATION_HEADER_MISSING") ∷ [])
refuse_token token_invalid =
    answer 401
      (("error", "Invalid authorization token signature.") ∷ ("code", "INVALID_TOKEN") ∷ [])
refuse_token token_expired =
    answer 401 (("error", "The authorization token has expired.") ∷ ("code", "TOKEN_EXPIRED") ∷ [])

unfoldable pub handle_rate_limit_exceeded : (description : String) → Answer
handle_rate_limit_exceeded description = answer 429 (
    ("error", "Rate limit exceeded. Too many requests. Please try again later.")
    ∷ ("code", "RATE_LIMIT_EXCEEDED")
    ∷ ("details", description)
    ∷ [])

unfoldable pub resource_not_found : Answer
resource_not_found = answer 404 (("error", "Requested resource was not found.") ∷ [])

-- `flask reconcile`, which prints the fields of the report.
unfoldable pub reconcile_command : Action Report
unfolding reconcile_system_balances
reconcile_command = reconcile_system_balances
