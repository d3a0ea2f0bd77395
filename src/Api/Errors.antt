-- ===== src/Api/Errors.antt =====
-- Which requests succeed, and what error the others are thrown as.
use Prim.Native.String.{◌++◌}
use oh_my_terminal.Base.{
  ℕ, String, String-discrete, Option, none, some, true, false, ◌≡◌, ◌≢◌, ◌↔◌, ◌⊎◌, inl, inr, refl,
  sym, ◌∙◌, ap, ap₂, subst, if_pos, if_neg, if_intro, Option-cases, eq_of_some,
}
use oh_my_terminal.Json.{Json, null, bool, number, string, arr, obj, Fields, get_field}
use oh_my_terminal.Api.{
  Response, Fetched, unreachable, response, Outcome, returned, api_error, RequestOptions,
  RequestInit, string_of, body_error, message_or, status_line, json_of, parse_error, void_of,
  json_outcome, parsed_or, api_void, api_json, build_init, set_body, is_returned, check_auth,
}

module _ {R : Type 0} (print : ℕ → String) (parse_json : String → Option (Json R)) where
  -- The body of the response is an object with this string under "error".
  abbrev pub Says : Response → String → Type 0
  Says res m =
      (text : String) × (fields : Fields R) × (res.body ≡ some text)
      × (parse_json text ≡ some (obj fields))
      × (get_field fields "error" ≡ some (string m))

  -- The message is what the body says, if that is not empty, and else the line of the status.
  abbrev pub IsMessage : Response → String → Type 0
  IsMessage res m =
      ((m ≢ "") × Says res m)
      ⊎ (((x : String) → Says res x → x ≡ "") × (m ≡ print res.status ++ (" " ++ res.status_text)))

  string_of-inv : (o : Option (Json R)) (m : String) → string_of o ≡ some m → o ≡ some (string m)
  unfolding string_of
  string_of-inv (some (string x)) m e = cc
  string_of-inv none m e = cc
  string_of-inv (some null) m e = cc
  string_of-inv (some (bool _)) m e = cc
  string_of-inv (some (number _)) m e = cc
  string_of-inv (some (arr _)) m e = cc
  string_of-inv (some (obj _)) m e = cc

  body_error-inv :
      (o : Option (Json R)) (m : String)
      → body_error o ≡ some m
      → (fields : Fields R) × (o ≡ some (obj fields)) × (get_field fields "error" ≡ some (string m))
  unfolding body_error
  body_error-inv (some (obj fields)) m e =
      (fields, refl, string_of-inv (get_field fields "error") m e)
  body_error-inv none m e = cc
  body_error-inv (some null) m e = cc
  body_error-inv (some (bool _)) m e = cc
  body_error-inv (some (number _)) m e = cc
  body_error-inv (some (arr _)) m e = cc
  body_error-inv (some (string _)) m e = cc

  json_of-inv :
      (o : Option String) (x : Json R)
      → json_of parse_json o ≡ some x
      → (text : String) × (o ≡ some text) × (parse_json text ≡ some x)
  unfolding json_of
  json_of-inv none x e = cc
  json_of-inv (some text) x e = (text, refl, e)

  -- What `parseError` reads is what the body says.
  Says-iff :
      (res : Response) (m : String)
      → (body_error (json_of parse_json res.body) ≡ some m) ↔ Says res m
  unfolding body_error json_of string_of
  Says-iff res m = (to, from)
    where
      to : body_error (json_of parse_json res.body) ≡ some m → Says res m
      to e =
          let (fields, p, q) = body_error-inv (json_of parse_json res.body) m e in
          let (text, b, j) = json_of-inv res.body (obj fields) p in (text, fields, b, j, q)

      from : Says res m → body_error (json_of parse_json res.body) ≡ some m
      from (text, fields, b, j, q) = rw (b, j, q) refl

  abbrev chosen : Response → String
  chosen res =
      message_or (status_line print parse_json res) (body_error (json_of parse_json res.body))

  -- Two texts that the body says are one.
  Says-once : (res : Response) (x y : String) → Says res x → Says res y → x ≡ y
  Says-once res x y s t = eq_of_some (sym ((Says-iff res x).1 s) ∙ (Says-iff res y).1 t)

  chosen-IsMessage : (res : Response) → IsMessage res (chosen res)
  unfolding message_or
  chosen-IsMessage res = elim (Option-cases (body_error (json_of parse_json res.body))) [
    | inl e ↦ rw e (inr (λ x s. absurd (cc (e, (Says-iff res x).1 s)), refl))
    | inr (x, e) ↦ elim (String-discrete x "") [
      | yes p ↦
          rw (e, if_pos _ p) (inr (λ y s. Says-once res y x s ((Says-iff res x).0 e) ∙ p, refl))
      | no p ↦ rw (e, if_neg _ p) (inl (p, (Says-iff res x).0 e))
    ]
  ]

  IsMessage-unique : (res : Response) (x y : String) → IsMessage res x → IsMessage res y → x ≡ y
  IsMessage-unique res x y (inl (n, s)) (inl (m, t)) = Says-once res x y s t
  IsMessage-unique res x y (inl (n, s)) (inr (m, t)) = absurd (n (m x s))
  IsMessage-unique res x y (inr (n, s)) (inl (m, t)) = absurd (m (n y t))
  IsMessage-unique res x y (inr (n, s)) (inr (m, t)) = s ∙ sym t

  -- The response refuses, with this status and message.
  abbrev pub Refuses : Fetched → ℕ → String → Type 0
  Refuses f st m =
      (res : Response) × (f ≡ response res) × (res.ok ≡ false) × (res.status ≡ st) × IsMessage res m

  refused_iff :
      {A : Type 0} (res : Response) (st : ℕ) (m : String)
      → res.ok ≡ false
      → (parse_error print parse_json {A = A} res ≡ api_error st m) ↔ Refuses (response res) st m
  unfolding parse_error
  refused_iff {A} res st m o = (to, from)
    where
      to : parse_error print parse_json {A = A} res ≡ api_error st m → Refuses (response res) st m
      to e =
          let same_status : res.status ≡ st = cc e in
          let same : chosen res ≡ m = cc e in
          (res, refl, o, same_status, subst (IsMessage res) same (chosen-IsMessage res))

      from : Refuses (response res) st m → parse_error print parse_json {A = A} res ≡ api_error st m
      from (r, p, _, q, w) =
          let same : r ≡ res = cc p in
          ap₂ api_error (ap (λ x. x.status) (sym same) ∙ q) (
            IsMessage-unique res (chosen res) m (chosen-IsMessage res)
              (subst (λ x. IsMessage x m) same w))

  -- The response has a body that is JSON for the value.
  abbrev pub Answers : Fetched → Json R → Type 0
  Answers f x =
      (res : Response) × (text : String) × (f ≡ response res)
      × (res.ok ≡ true)
      × (res.body ≡ some text)
      × (parse_json text ≡ some x)

  accepted_no :
      (res : Response) (st : ℕ) (m : String) → res.ok ≡ true → ¬ Refuses (response res) st m
  accepted_no res st m o (r, p, q, _, _) =
      let same : r ≡ res = cc p in cc (ap (λ x. x.ok) same, q, o)

  refused_no : (res : Response) (x : Json R) → res.ok ≡ false → ¬ Answers (response res) x
  refused_no res x o (r, t, p, q, _, _) =
      let same : r ≡ res = cc p in cc (ap (λ x. x.ok) same, q, o)

  parsed_or-inv : (o : Option (Json R)) (x : Json R) → parsed_or o ≡ returned x → o ≡ some x
  unfolding parsed_or
  parsed_or-inv none x e = cc
  parsed_or-inv (some y) x e = cc

  parsed_or-quiet : (o : Option (Json R)) (st : ℕ) (m : String) → ¬ (parsed_or o ≡ api_error st m)
  unfolding parsed_or
  parsed_or-quiet none st m e = cc
  parsed_or-quiet (some y) st m e = cc

  Answers-iff :
      (res : Response) (x : Json R)
      → res.ok ≡ true
      → (parsed_or (json_of parse_json res.body) ≡ returned x) ↔ Answers (response res) x
  unfolding json_of parsed_or
  Answers-iff res x o = (to, from)
    where
      to : parsed_or (json_of parse_json res.body) ≡ returned x → Answers (response res) x
      to e =
          let (text, b, j) =
            json_of-inv res.body x (parsed_or-inv (json_of parse_json res.body) x e) in
          (res, text, refl, o, b, j)

      from : Answers (response res) x → parsed_or (json_of parse_json res.body) ≡ returned x
      from (r, text, p, _, b, j) =
          let same : r ≡ res = cc p in
          let b' : res.body ≡ some text = ap (λ r. r.body) (sym same) ∙ b in rw (b', j) refl

  refusal-quiet : (res : Response) (x : Json R) → ¬ (parse_error print parse_json res ≡ returned x)
  unfolding parse_error
  refusal-quiet res x e = cc

  -- Both ways at once, for what a request settles to.
  abbrev Settles : Fetched → Outcome (Json R) → Type 0
  Settles f out =
      ((x : Json R) → (out ≡ returned x) ↔ Answers f x)
      × ((st : ℕ) (m : String) → (out ≡ api_error st m) ↔ Refuses f st m)

  json_outcome-Settles : (f : Fetched) → Settles f (json_outcome print parse_json f)
  unfolding json_outcome
  json_outcome-Settles unreachable =
      (λ x. (λ e. cc e, λ (r, t, p, _, _, _). cc p), λ st m. (λ e. cc e, λ (r, p, _, _, _). cc p))
  json_outcome-Settles (response res) =
      if_intro (Settles (response res)) res.ok (parsed_or (json_of parse_json res.body))
        (parse_error print parse_json res)
        (λ o. (
          λ x. Answers-iff res x o,
          λ st m. (
            λ e. absurd (parsed_or-quiet (json_of parse_json res.body) st m e),
            λ w. absurd (accepted_no res st m o w),
          ),
        ))
        (λ o. (
          λ x. (λ e. absurd (refusal-quiet res x e), λ w. absurd (refused_no res x o w)),
          λ st m. refused_iff res st m o,
        ))

  -- With any `fetch`, a request for JSON gives a value exactly if the response is ok and its body is
  -- JSON for it; and it throws an ApiError exactly if the response is not ok, with its status and
  -- with the string that its body has under "error", or the line of the status if the body has none
  -- there that is not empty.
  pub api_json-Settles :
      (stringify : Json R → String) (fetch : String → RequestInit → Fetched) (path : String)
      (options : RequestOptions R)
      → let f = fetch path (build_init stringify options) in
        let out = api_json print parse_json stringify fetch path options in
        ((x : Json R) → (out ≡ returned x) ↔ Answers f x)
        × ((st : ℕ) (m : String) → (out ≡ api_error st m) ↔ Refuses f st m)
  unfolding api_json
  api_json-Settles stringify fetch path options =
      json_outcome-Settles (fetch path (build_init stringify options))

  is_returned-void_of :
      (f : Fetched)
      → (is_returned (void_of print parse_json f) ≡ true)
        ↔ ((res : Response) × (f ≡ response res) × (res.ok ≡ true))
  unfolding is_returned void_of parse_error
  is_returned-void_of unreachable = (λ e. cc e, λ (r, p, _). cc p)
  is_returned-void_of (response res) =
      if_intro
        (λ out.
          (is_returned out ≡ true) ↔ ((r : Response) × (response res ≡ response r) × (r.ok ≡ true)))
        res.ok (returned tt) (parse_error print parse_json res)
        (λ o. (λ _. (res, refl, o), λ _. refl))
        (λ o. (λ e. cc e, λ (r, p, q). let same : r ≡ res = cc p in cc (ap (λ x. x.ok) same, q, o)))

  -- The user counts as logged in exactly if the server's answer to the check of the session is ok;
  -- an error of the network counts as not logged in.
  check_auth_iff :
      (stringify : Json R → String) (fetch : String → RequestInit → Fetched)
      → let init : RequestInit = record {
        method = "GET";
        credentials = "same-origin";
        content_type = none;
        body = none;
        signal = false;
      } in
        (check_auth print parse_json stringify fetch ≡ true)
        ↔ ((res : Response) × (fetch "/api/auth/check" init ≡ response res) × (res.ok ≡ true))
  unfolding check_auth api_void build_init set_body
  check_auth_iff stringify fetch = is_returned-void_of _
