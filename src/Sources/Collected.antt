-- ===== src/Sources/Collected.antt =====
-- rust/src/discovery/sources: no server of a file gets lost without a word.
use mcpway.Base.{
  ℕ, ◌+◌, String, ◌≡◌, refl, ◌⊎◌, inl, inr, true, ◌&&◌, Option, none, some, [], ◌∷◌, ◌↔◌,
  length-append, arith, if◌then◌else◌, Bool-cases, Option-cases, length,
}
use mcpway.Base.Text.{◌++◌}
use mcpway.Base.Result.{Result}
use mcpway.Json.{count_fields}
use mcpway.Discovery.{DiscoveryScope, DiscoveredTransport, stdio, DiscoveredServer, DiscoveryIssue}
use mcpway.Connect.{Url}
use mcpway.Sources.{
  Format, Found, has_command, typed_transport, url_transport, type_text, infer_transport,
  is_disabled, add, add_entry, add_entries, server_entry, text_field, source_issue,
}
use mcpway.Json.{Value, Fields, end, field, as_object}

-- A server is as the file says: its name, its source and its scope, and it is started by a command
-- exactly if it has one that is not blank.
unfoldable pub IsFrom : Format → String → DiscoveryScope → DiscoveredServer → Type 0
unfolding has_command
IsFrom format path scope server =
    (server.source ≡ format.source)
    × (server.origin_path ≡ path)
    × (server.scope ≡ scope)
    × (server.enabled ≡ true)
    × ((server.transport ≡ stdio) ↔ (has_command server.command ≡ true))

typed_not_stdio : (typ : String) → typed_transport typ ≡ some stdio → ⊥
unfolding typed_transport
typed_not_stdio typ h = ground (arith, h)

url_not_stdio :
    (parse_url : String → Result String Url) (url : Option String)
    → url_transport parse_url url ≡ some stdio
    → ⊥
unfolding url_transport
url_not_stdio parse_url none h = ground (arith, h)
url_not_stdio parse_url (some url) h = ground (arith, h)

infer_transport-stdio :
    (parse_url : String → Result String Url) (command url typ : Option String)
    (t : DiscoveredTransport)
    → infer_transport parse_url command url typ ≡ some t
    → (t ≡ stdio) ↔ (has_command command ≡ true)
unfolding infer_transport
infer_transport-stdio parse_url command url typ t h = elim (Bool-cases (has_command command)) [
  | inl e ↦ ground (arith, h, e)
  | inr e ↦ ground (arith, h, e, typed_not_stdio (type_text typ), url_not_stdio parse_url url)
]

-- How many entries of the object are left out because they are disabled.
unfoldable pub skipped : Format → Value → ℕ
unfolding is_disabled
skipped format value = elim (as_object value) [
  | none ↦ 0
  | some server ↦ if format.skips_disabled && is_disabled server then 1 else 0
]

unfoldable pub count_skipped : Format → Fields → ℕ
unfolding skipped
count_skipped format end = 0
count_skipped format (field name value more) = skipped format value + count_skipped format more

abbrev pub count_found : Found → ℕ
count_found found = length found.servers + length found.issues

count-add :
    (entry : DiscoveredServer ⊎ DiscoveryIssue) (found : Found)
    → count_found (add entry found) ≡ count_found found + 1
count-add (inl server) found = omega (arith, length-append found.servers (server ∷ []))
count-add (inr issue) found = omega (arith, length-append found.issues (issue ∷ []))

count-add_entry :
    (parse_url : String → Result String Url) (format : Format) (path : String)
    (scope : DiscoveryScope) (name : String) (value : Value) (found : Found)
    → count_found (add_entry parse_url format path scope name value found) + skipped format value
      ≡ count_found found + 1
unfolding add_entry skipped
count-add_entry parse_url format path scope name value found =
    elim (Option-cases (as_object value)) [
      | inl e ↦
          let issue = source_issue format.source path (format.label name ++ " must be an object") in
          rw (add_entry, skipped, e) (omega (arith, count-add (inr issue) found))
      | inr (server, e) ↦ elim (Bool-cases (format.skips_disabled && is_disabled server)) [
        | inl d ↦ rw (add_entry, skipped, e, d) refl
        | inr d ↦
            rw (add_entry, skipped, e, d)
              (omega
                (arith, count-add (server_entry parse_url format path scope name server) found))
      ]
    ]

-- The servers and the issues together grow by the number of entries of the servers' object, less the
-- entries that are left out because the format leaves disabled ones out and they are disabled.
pub count-add_entries :
    (parse_url : String → Result String Url) (format : Format) (path : String)
    (scope : DiscoveryScope) (fields : Fields) (found : Found)
    → count_found (add_entries parse_url format path scope fields found)
        + count_skipped format fields
      ≡ count_found found + count_fields fields
unfolding add_entries count_skipped
count-add_entries parse_url format path scope end found = omega arith
count-add_entries parse_url format path scope (field name value more) found =
    let one = count-add_entry parse_url format path scope name value found in
    let rest =
      count-add_entries parse_url format path scope more
        (add_entry parse_url format path scope name value found) in
    omega (arith, one, rest)

-- What is said of a server holds of an entry's server, if it has one.
abbrev pub Holds : (DiscoveredServer → Type 0) → DiscoveredServer ⊎ DiscoveryIssue → Type 0
Holds P (inl server) = P server
Holds P (inr issue) = Unit

-- The server that an entry gives has the source of the format, the path and the scope of the file and the
-- entry's name, is enabled, and is started as a command exactly if its command is not blank.
pub server_entry-IsFrom :
    (parse_url : String → Result String Url) (format : Format) (path : String)
    (scope : DiscoveryScope) (name : String) (server : Fields)
    → Holds
        (λ found. IsFrom format path scope found × (found.name ≡ name))
        (server_entry parse_url format path scope name server)
unfolding server_entry IsFrom
server_entry-IsFrom parse_url format path scope name server =
    let command = text_field "command" server in
    let url = text_field "url" server in
    let typ = text_field "type" server in
    elim (Option-cases (infer_transport parse_url command url typ)) [
      | inl e ↦ rw (server_entry, e) tt
      | inr (t, e) ↦
          rw (server_entry, e)
            ((refl, refl, refl, refl, infer_transport-stdio parse_url command url typ t e), refl)
    ]
