-- ===== src/ApiServer/Http.antt =====
-- mvp/cmd/apiserver/main.go: requests, replies, and what the handlers repeat around a call of the
-- store. A reply is its status code with the value that `writeJSON` encodes; the text of an
-- `http.Error` is left out. `read` stands for `json.NewDecoder(r.Body).Decode` or for
-- `io.ReadAll` with `json.Unmarshal`; a body that cannot be read is `none`.
pub mod Reading
pub mod Writing
use kubernetes_style_orchest.Prelude.{
  ℕ, String, ◌==◌, string_eq, Option, none, some, List, StringMap, if◌then◌else◌,
}
use kubernetes_style_orchest.Sql.{
  M, Error, not_found, failed, Result, ok, err, ◌>>=◌, pure, attempt,
}

pub record HttpRequest : Type 0 where
  pub method : String
  pub path : String
  pub authorization : String
  pub query : StringMap String
  pub body : Option String

-- `http.Error` with a code, a list under "items", a value (`none` is `null`), or the name of what
-- was deleted.
pub data Reply (A : Type 0) : Type 0 where
  error : ℕ → Reply A
  items : List A → Reply A
  object : ℕ → Option A → Reply A
  deleted : String → Reply A

-- `notFoundOrErr`
unfoldable pub not_found_or_err : {A : Type 0} → Error → Reply A
not_found_or_err not_found = error 404
not_found_or_err failed = error 500

abbrev pub method_not_allowed : {A : Type 0} → M (Reply A)
method_not_allowed = pure (error 405)

abbrev pub items_or_error : {A : Type 0} → Result (List A) → Reply A
items_or_error (ok xs) = items xs
items_or_error (err e) = error 500

abbrev pub object_or_error : {A : Type 0} → Result A → Reply A
object_or_error (ok x) = object 200 (some x)
object_or_error (err e) = not_found_or_err e

abbrev pub deleted_or_error : {A : Type 0} → String → Result (Unit {0}) → Reply A
deleted_or_error name (ok u) = deleted name
deleted_or_error name (err e) = not_found_or_err e

abbrev pub value_or_nil : {A : Type 0} → Result A → Option A
value_or_nil (ok x) = some x
value_or_nil (err e) = none

-- A list, or 500.
unfoldable pub reply_items : {A : Type 0} → M (List A) → M (Reply A)
reply_items list = do r ← attempt list; pure (items_or_error r)

-- One object, or 404 or 500.
unfoldable pub reply_object : {A : Type 0} → M A → M (Reply A)
unfolding not_found_or_err
reply_object get = do r ← attempt get; pure (object_or_error r)

unfoldable pub reply_deleted : {A : Type 0} → String → M (Unit {0}) → M (Reply A)
unfolding not_found_or_err
reply_deleted name delete = do r ← attempt delete; pure (deleted_or_error name r)

-- `out, _ := get(); writeJSON(w, code, out)`
unfoldable pub reply_read_back : {A : Type 0} → ℕ → M A → M (Reply A)
reply_read_back code get = do out ← attempt get; pure (object code (value_or_nil out))

-- A write whose errors are all 500, and the reply after it.
unfoldable pub after_write : {A : Type 0} → M (Unit {0}) → M (Reply A) → M (Reply A)
after_write write next = do r ← attempt write; elim r [ ok u ↦ next | err e ↦ pure (error 500) ]

-- A status update, whose ErrNotFound is 404, and the object read back.
unfoldable pub reply_updated : {A : Type 0} → M (Unit {0}) → M A → M (Reply A)
unfolding not_found_or_err reply_read_back
reply_updated update get = do
  r ← attempt update
  elim r [ ok u ↦ reply_read_back 200 get | err e ↦ pure (not_found_or_err e) ]

-- The decoded body, or 400.
unfoldable pub with_body :
    {A B : Type 0} → (String → Option A) → HttpRequest → (A → M (Reply B)) → M (Reply B)
with_body read r next = elim r.body [
  | none ↦ pure (error 400)
  | some text ↦ elim (read text) [ none ↦ pure (error 400) | some x ↦ next x ]
]

-- `switch r.Method` with the cases GET and POST.
abbrev pub get_or_post : {A : Type 0} → HttpRequest → M (Reply A) → M (Reply A) → M (Reply A)
get_or_post r get post =
    if r.method == "GET" then get else if r.method == "POST" then post else method_not_allowed

-- `switch r.Method` with the cases GET and DELETE, after the test of the name.
abbrev pub get_or_delete :
    {A : Type 0} → HttpRequest → String → M (Reply A) → M (Reply A) → M (Reply A)
get_or_delete r name get delete =
    if name == ""
    then pure (error 400)
    else if r.method == "GET"
    then get
    else if r.method == "DELETE"
    then delete
    else method_not_allowed

-- The branch of `…/status`.
abbrev pub put_or_patch : {A : Type 0} → HttpRequest → M (Reply A) → M (Reply A)
put_or_patch r update =
    if r.method == "PUT" then update else if r.method == "PATCH" then update else method_not_allowed
