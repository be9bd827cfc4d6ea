-- ===== src/Resolver/Environment.antt =====
-- The configuration of the template resolver in adapter/outbound-resolver/src/resolver.rs: what
-- `from_lookup` reads of the environment, and the templates of a directory.
use Prim.Native.String.{◌++◌ as join}
use catapulte.Common.{
  String, List, [], ◌∷◌, Bool, false, Option, none, some, Result, ok, err, str_eq, if◌then◌else◌,
}
use catapulte.Entity.{AnyError}
use catapulte.Resolver.{Headers, ResolverAuthEntry, TemplateResolverAdapter, lookup, new}
use catapulte.Texts.{items, split_commas, trimmed}

-- An entry of the directory: its name in two parts, each if it is Unicode, and its content.
pub record DirEntry : Type 0 where
  pub file_stem : Option String
  pub extension : Option String
  pub content : Result String AnyError

abbrev pub is_mjml : Option String → Bool
is_mjml (some e) = str_eq e "mjml"
is_mjml none = false

unfoldable pub load_template_entry :
    Result DirEntry AnyError → Result (Option (String × String)) AnyError
load_template_entry (err _) = err "reading directory entry"
load_template_entry (ok entry) =
    if is_mjml entry.extension
    then (elim entry.file_stem [
      | none ↦ err "invalid template filename"
      | some name ↦ elim entry.content [
        | err _ ↦ err "reading template"
        | ok content ↦ ok (some (name, content))
      ]
    ])
    else ok none

-- `filter_map` and `collect`: the first error ends the loop, and a later template hides an earlier one
-- of its name.
unfoldable pub load_templates :
    List (Result DirEntry AnyError)
    → List (String × String)
    → Result (List (String × String)) AnyError
load_templates [] templates = ok templates
load_templates (raw ∷ rest) templates = elim (load_template_entry raw) [
  | err e ↦ err e
  | ok entry ↦ elim entry [
    | none ↦ load_templates rest templates
    | some template ↦ load_templates rest (template ∷ templates)
  ]
]

pub record TemplateResolverConfig : Type 0 where
  pub allowed_domains : List String
  pub templates_dir : Option String
  pub auth_entries : List ResolverAuthEntry

-- The variables that are read: those of the resolver, and those of a named entry and of its headers.
abbrev pub token_key : String → String → String
token_key upper suffix = join "TOKEN_" (join upper suffix)

abbrev pub value_key : String → String → String
value_key upper fragment = token_key upper (join "_HEADER_" (join fragment "_VALUE"))

-- `.ok().map(trim).filter(|s| !s.is_empty())`
unfoldable pub non_empty : Option String → Option String
non_empty none = none
non_empty (some v) = if str_eq (trimmed v) "" then none else some (trimmed v)

abbrev pub list_of : Option String → List String
list_of none = []
list_of (some v) = items (split_commas v)

-- `var` reads a variable, named without the prefix; `fragment_of` is the upper case of a header's name
-- with `_` for `-`.
module _ (var : String → Option String) (to_uppercase : String → String)
    (fragment_of : String → String) where
  -- The loop over the headers of an entry; `seen` are the fragments of those before.
  unfoldable pub read_headers :
      String → List String → List (String × String) → Result (List (String × String)) AnyError
  read_headers upper [] seen = ok []
  read_headers upper (header ∷ rest) seen =
      let fragment = fragment_of header in
      let others = read_headers upper rest ((fragment, header) ∷ seen) in
      elim (lookup fragment seen) [
        | some _ ↦ err "header names both map to a fragment"
        | none ↦ elim (non_empty (var (value_key upper fragment))) [
          | none ↦ err "missing or empty header value"
          | some value ↦ elim others [ ok more ↦ ok ((header, value) ∷ more) | err e ↦ err e ]
        ]
      ]

  -- An entry that has neither a token nor headers is refused.
  unfoldable pub checked_entry :
      String → Option String → List (String × String) → Result ResolverAuthEntry AnyError
  checked_entry host none [] = err "auth entry has a host but no bearer token or headers"
  checked_entry host none (h ∷ hs) =
      ok (record { host = host; bearer_token = none; headers = h ∷ hs })
  checked_entry host (some t) hs = ok (record { host = host; bearer_token = some t; headers = hs })

  unfoldable pub read_entry : String → Result ResolverAuthEntry AnyError
  read_entry name =
      let upper = to_uppercase name in
      elim (non_empty (var (token_key upper "_HOST"))) [
        | none ↦ err "missing or empty host"
        | some host ↦ elim (read_headers upper (list_of (var (token_key upper "_HEADERS"))) []) [
          | err e ↦ err e
          | ok headers ↦
              checked_entry host (non_empty (var (token_key upper "_BEARER_TOKEN"))) headers
        ]
      ]

  unfoldable pub read_entries : List String → Result (List ResolverAuthEntry) AnyError
  read_entries [] = ok []
  read_entries (name ∷ rest) =
      let others = read_entries rest in
      elim (read_entry name) [
        | err e ↦ err e
        | ok entry ↦ elim others [ ok more ↦ ok (entry ∷ more) | err e ↦ err e ]
      ]

  unfoldable pub from_lookup : Result TemplateResolverConfig AnyError
  from_lookup = elim (read_entries (list_of (var "TOKENS"))) [
    | err e ↦ err e
    | ok entries ↦ ok (record {
      allowed_domains = list_of (var "ALLOWED_DOMAINS");
      templates_dir = var "TEMPLATES_DIR";
      auth_entries = entries;
    })
  ]

-- The templates of a configuration; `read_dir` lists a directory.
unfoldable pub config_templates :
    (String → Result (List (Result DirEntry AnyError)) AnyError)
    → Option String
    → Result (List (String × String)) AnyError
config_templates read_dir none = ok []
config_templates read_dir (some dir) = elim (read_dir dir) [
  | err _ ↦ err "reading templates directory"
  | ok entries ↦ load_templates entries []
]

unfoldable pub build :
    Headers
    → (String → Result (List (Result DirEntry AnyError)) AnyError)
    → TemplateResolverConfig
    → Result TemplateResolverAdapter AnyError
build lib read_dir config = elim (config_templates read_dir config.templates_dir) [
  | err e ↦ err e
  | ok templates ↦ elim (new lib templates config.allowed_domains config.auth_entries) [
    | err _ ↦ err "building template resolver adapter"
    | ok adapter ↦ ok adapter
  ]
]
