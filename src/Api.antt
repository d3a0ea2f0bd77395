-- ===== src/Api.antt =====
-- frontend/src/lib/api.ts and frontend/src/features/auth/auth.ts: requests, and what their callers
-- get. `fetch`, the parsing and printing of JSON, the printing of numbers and the encoding of a query
-- are the platform's.
pub mod Errors
pub mod Addresses
mod Tests
use Prim.Native.String.{◌++◌}
use oh_my_terminal.Base.{
  ℕ, String, String-discrete, Option, none, some, List, [], ◌∷◌, Bool, true, false, ite,
  if◌then◌else◌,
}
use oh_my_terminal.Json.{Json, null, string, obj, Fields, end, field, get_field}

pub record Response : Type 0 where
  pub status : ℕ
  pub ok : Bool
  pub status_text : String
  -- the text of the body, if it can be read
  pub body : Option String

-- What `fetch` settles to.
pub data Fetched : Type 0 where
  unreachable : Fetched
  response : Response → Fetched

-- What the caller gets: a value, an `ApiError`, or another error that is thrown.
pub data Outcome (A : Type 0) : Type 0 where
  returned : A → Outcome A
  api_error : (status : ℕ) (message : String) → Outcome A
  broken : Outcome A

pub record RequestOptions (R : Type 0) : Type 0 where
  pub method : Option String
  pub body : Option (Json R)
  pub signal : Bool

pub record RequestInit : Type 0 where
  pub method : String
  pub credentials : String
  pub content_type : Option String
  pub body : Option String
  pub signal : Bool

unfoldable pub string_of : {R : Type 0} → Option (Json R) → Option String
string_of none = none
string_of (some (string m)) = some m
string_of (some _) = none

-- The string under "error", if the body is an object that has one there.
unfoldable pub body_error : {R : Type 0} → Option (Json R) → Option String
unfolding string_of
body_error none = none
body_error (some (obj fields)) = string_of (get_field fields "error")
body_error (some _) = none

unfoldable pub message_or : String → Option String → String
message_or line none = line
message_or line (some m) = ite (String-discrete m "") line m

abbrev pub or_get : Option String → String
or_get none = "GET"
or_get (some m) = m

parsed_or : {R : Type 0} → Option (Json R) → Outcome (Json R)
parsed_or none = broken
parsed_or (some x) = returned x

is_returned : Outcome Unit → Bool
is_returned (returned _) = true
is_returned (api_error _ _) = false
is_returned broken = false

module _ {R : Type 0} (parse_json : String → Option (Json R)) where
  -- `res.json()`
  unfoldable pub json_of : Option String → Option (Json R)
  json_of none = none
  json_of (some text) = parse_json text

module _ {R : Type 0} (stringify : Json R → String) where
  set_body : Option (Json R) → RequestInit → RequestInit
  set_body none init = init
  set_body (some x) init = record init {
    content_type = some "application/json";
    body = some (stringify x);
  }

  unfoldable pub build_init : RequestOptions R → RequestInit
  unfolding set_body
  build_init options = set_body options.body (record {
    method = or_get options.method;
    credentials = "same-origin";
    content_type = none;
    body = none;
    signal = options.signal;
  })

module _ {R : Type 0} (print : ℕ → String) (parse_json : String → Option (Json R)) where
  abbrev pub status_line : Response → String
  status_line res = print res.status ++ (" " ++ res.status_text)

  unfoldable pub parse_error : {A : Type 0} → Response → Outcome A
  unfolding message_or body_error json_of
  parse_error res =
      api_error res.status (message_or (status_line res) (body_error (json_of parse_json res.body)))

  unfoldable pub void_of : Fetched → Outcome Unit
  unfolding parse_error
  void_of unreachable = broken
  void_of (response res) = if res.ok then returned tt else parse_error res

  unfoldable pub json_outcome : Fetched → Outcome (Json R)
  unfolding parse_error parsed_or json_of
  json_outcome unreachable = broken
  json_outcome (response res) =
      if res.ok then parsed_or (json_of parse_json res.body) else parse_error res

  unfoldable pub raw_outcome : Fetched → Outcome Response
  unfolding parse_error
  raw_outcome unreachable = broken
  raw_outcome (response res) = if res.ok then returned res else parse_error res

  module _ (stringify : Json R → String) (fetch : String → RequestInit → Fetched) where
    unfoldable pub api_json : String → RequestOptions R → Outcome (Json R)
    unfolding json_outcome build_init
    api_json path options = json_outcome (fetch path (build_init stringify options))

    unfoldable pub api_void : String → RequestOptions R → Outcome Unit
    unfolding void_of build_init
    api_void path options = void_of (fetch path (build_init stringify options))

    -- `body` is given as it is sent.
    unfoldable pub api_raw : String → Option String → String → Bool → Outcome Response
    unfolding raw_outcome
    api_raw path method body signal = raw_outcome (
        fetch path (record {
          method = elim method [ none ↦ "POST" | some m ↦ m ];
          credentials = "same-origin";
          content_type = none;
          body = some body;
          signal = signal;
        }))

    -- frontend/src/features/auth/auth.ts
    unfoldable pub login : String → Outcome Unit
    unfolding api_void
    login password = api_void "/api/login" (record {
      method = some "POST";
      body = some (obj (field "password" (string password) end));
      signal = false;
    })

    unfoldable pub logout : Outcome Unit
    unfolding api_void
    logout = api_void "/api/logout" (record { method = some "POST"; body = none; signal = false })

    unfoldable pub check_auth : Bool
    unfolding api_void is_returned
    check_auth =
        is_returned
          (api_void "/api/auth/check" (record { method = none; body = none; signal = false }))
