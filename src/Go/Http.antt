-- ===== src/Go/Http.antt =====
-- What a handler writes to its `http.ResponseWriter`: a JSON body with a status, the text of
-- `http.Error` with a status, or a status alone.
use tiny_aws.Prelude.{ℕ, String}

pub data Response {ℓ} (A : Type ℓ) : Type ℓ where
  json : ℕ → A → Response A
  error : ℕ → String → Response A
  no_body : ℕ → Response A

abbrev pub status_ok : ℕ
status_ok = 200

abbrev pub status_created : ℕ
status_created = 201

abbrev pub status_no_content : ℕ
status_no_content = 204

abbrev pub status_bad_request : ℕ
status_bad_request = 400

abbrev pub status_unauthorized : ℕ
status_unauthorized = 401

abbrev pub status_forbidden : ℕ
status_forbidden = 403

abbrev pub status_not_found : ℕ
status_not_found = 404

abbrev pub status_method_not_allowed : ℕ
status_method_not_allowed = 405

abbrev pub status_internal_server_error : ℕ
status_internal_server_error = 500

abbrev pub status_bad_gateway : ℕ
status_bad_gateway = 502

abbrev pub status_service_unavailable : ℕ
status_service_unavailable = 503

-- The same answer, with another reading of its body.
abbrev pub map_body {ℓ κ} : {A : Type ℓ} {B : Type κ} → (A → B) → Response A → Response B
map_body f (json status body) = json status (f body)
map_body f (error status text) = error status text
map_body f (no_body status) = no_body status
