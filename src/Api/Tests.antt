-- ===== src/Api/Tests.antt =====
-- A server's answers, and the theorems of api.ts at them.
use Prim.Native.Char.{code}
use oh_my_terminal.Base.{
  ℕ, String, String-discrete, Option, none, some, false, ◌≡◌, ◌↔◌, refl, ite, ◌≢◌, ap, apart, inr,
}
use oh_my_terminal.Json.{Json, string, obj, field, end, get_field}
use oh_my_terminal.Api.{
  Response, Fetched, response, returned, api_error, RequestOptions, RequestInit, api_json,
  build_init, parse_error, json_outcome, json_of, body_error, string_of, message_or,
}
use oh_my_terminal.Api.Addresses.{ws_path}
use oh_my_terminal.Api.Addresses.Distinct.{IsPart, ws_path-apart}
use oh_my_terminal.Api.Errors.{Answers, Refuses, api_json-Settles}

abbrev denial : String
denial = "{\"error\":\"gone\"}"

-- Enough of the platform for one address.
abbrev parse : String → Option (Json ℕ)
parse text = ite (String-discrete text denial) (some (obj (field "error" (string "gone") end))) none

abbrev print : ℕ → String
print n = "404"

abbrev stringify : Json ℕ → String
stringify x = "{}"

abbrev missing : Response
missing = record { status = 404; ok = false; status_text = "Not Found"; body = some denial }

abbrev plain : Response
plain = record { status = 404; ok = false; status_text = "Not Found"; body = some "<html>" }

abbrev fetch : String → RequestInit → Fetched
fetch path init = ite (String-discrete path "/api/x") (response missing) (response plain)

abbrev options : RequestOptions ℕ
options = record { method = none; body = none; signal = false }

api_json-Settles_example :
    let f = fetch "/api/x" (build_init stringify options) in
    let out = api_json print parse stringify fetch "/api/x" options in
    ((x : Json ℕ) → (out ≡ returned x) ↔ Answers print parse f x)
    × ((st : ℕ) (m : String) → (out ≡ api_error st m) ↔ Refuses print parse f st m)
api_json-Settles_example = api_json-Settles print parse stringify fetch "/api/x" options

-- The message of the body, and the line of the status for a body that is not JSON.
says : api_json print parse stringify fetch "/api/x" options ≡ api_error 404 "gone"
unfolding api_json json_outcome parse_error json_of body_error string_of message_or get_field
    String-discrete
says = refl

status_only : api_json print parse stringify fetch "/api/y" options ≡ api_error 404 "404 Not Found"
unfolding api_json json_outcome parse_error json_of body_error string_of message_or String-discrete
status_only = refl

abbrev same_text : String → String
same_text s = s

a-IsPart : IsPart "a"
a-IsPart = (λ e. cc (ap code e), tt)

b-IsPart : IsPart "b"
b-IsPart = (λ e. cc (ap code e), tt)

a≢b : same_text "a" ≢ same_text "b"
unfolding String-discrete
a≢b = apart "a" "b" refl

sockets_apart : ws_path same_text "a" "a" ≢ ws_path same_text "a" "b"
sockets_apart =
    ws_path-apart same_text "a" "a" "a" "b" a-IsPart a-IsPart a-IsPart b-IsPart (inr a≢b)
