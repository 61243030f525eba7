-- ===== src/JiraError.antt =====
-- internal/client/jira/jira.go, type `Error`: the error that the client makes of a Jira response.
-- A body is text. `Errors`, a Go map, is the list of its entries in key order, as `%v` prints it.
use Prim.Native.String.{len, slice}
use jira_connector.Base.{ℕ, String, List, [], ◌∷◌, ltb, ◌==◌, if◌then◌else◌, is_nil}
use jira_connector.Base.Int.{pos}
use jira_connector.Base.Text.{append, is_empty, format_int}

pub record JiraError : Type 0 where
  pub status_code : ℕ
  pub body : String
  pub message : String
  pub error_messages : List String
  pub errors : List (String × String)

abbrev pub max_error_body_length : ℕ
max_error_body_length = 200

unfoldable pub map_status_to_message : ℕ → String
map_status_to_message code =
    if code == 401
    then "Unauthorized: invalid token or credentials"
    else if code == 403
    then "Forbidden: insufficient permissions to access the resource"
    else if code == 404
    then "Not Found: the requested resource does not exist"
    else if code == 429
    then "Rate Limit Exceeded: too many requests, please slow down"
    else if code == 500
    then "Internal Server Error: Jira server encountered an unexpected condition"
    else if code == 502
    then "Bad Gateway: Jira server received an invalid response from upstream"
    else if code == 503
    then "Service Unavailable: Jira server is temporarily down for maintenance"
    else "Request failed"

-- `%v` of a slice of strings, without its brackets.
spaced : List String → String
spaced [] = ""
spaced (s ∷ []) = s
spaced (s ∷ t ∷ r) = append s (append " " (spaced (t ∷ r)))

-- `%v` of a map of strings, without `map[` and `]`.
spaced_fields : List (String × String) → String
spaced_fields [] = ""
spaced_fields ((k, v) ∷ []) = append k (append ":" v)
spaced_fields ((k, v) ∷ f ∷ r) =
    append k (append ":" (append v (append " " (spaced_fields (f ∷ r)))))

-- `bodyStr[:maxErrorBodyLength] + "..."` where the text is longer; `len` counts bytes, as Go's.
unfoldable pub shorten : String → String
shorten s =
    if ltb max_error_body_length (len s) then append (slice s 0 max_error_body_length) "..." else s

-- The method `Error()`.
unfoldable pub error : JiraError → String
unfolding spaced spaced_fields shorten map_status_to_message format_int
error e =
    let code = format_int (pos e.status_code) in
    if is_empty e.message
    then if is_nil e.error_messages
      then if is_nil e.errors
        then if is_empty e.body
          then append "Jira API: " (append code (append ", body: " e.body))
          else append (map_status_to_message e.status_code)
              (append " (Status: " (append code (append "). Raw body: " (shorten e.body))))
        else append "Jira API: "
            (append code (append ", field errors: map[" (append (spaced_fields e.errors) "]")))
      else append "Jira API: "
          (append code (append ", errors: [" (append (spaced e.error_messages) "]")))
    else append "Jira API: " (append code (append ", message: " e.message))
