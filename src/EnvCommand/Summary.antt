-- ===== src/EnvCommand/Summary.antt =====
-- The markdown report of `env`: cli/cmd/canton-localnet/env_summary.go. Writing the file is left out.
use canton_localnet.Base.{
  ◌≡◌, refl, sym, ap, ◌∙◌, Bool, true, false, not, ◌&&◌, Text, lit, List, [], ◌∷◌, ◌++◌, Option,
  none, some, is_empty, lookup_key, set_key, filter, any, has_prefix, has_suffix, contains,
  trim_prefix, trim_suffix, replace_char, if◌then◌else◌, Bool-cases, inl, inr,
}
use canton_localnet.Slot.{to_lower}
use canton_localnet.EnvCommand.{EnvVar}

-- `strings.TrimPrefix`, in lower case with dashes.
unfoldable pub slot_canonical_from_env_prefix : Text → Text
unfolding to_lower replace_char trim_prefix lit
slot_canonical_from_env_prefix prefix =
    to_lower (replace_char b'_' (b'-' ∷ []) (trim_prefix prefix (lit "CANTON_LOCALNET_")))

-- The map `public` and the prefixes, in the order of the variables.
pub record Collected : Type 0 where
  pub values : List (Text × Text)
  pub prefixes : List Text

unfoldable pub is_slot_key : Text → Bool
unfolding has_prefix contains has_suffix lit
is_slot_key key =
    has_prefix key (lit "CANTON_LOCALNET_")
    && (contains key (lit "_VALIDATOR_") && has_suffix key (lit "_JSON_API_URL"))

-- The body of the loop behind the test of `v.Secret`.
unfoldable pub collect_var : Collected → EnvVar → Collected
unfolding set_key is_slot_key trim_suffix lit
collect_var c v = record {
  values = set_key v.key v.value c.values;
  prefixes =
      if is_slot_key v.key
      then c.prefixes ++ trim_suffix v.key (lit "_JSON_API_URL") ∷ []
      else c.prefixes;
}

unfoldable pub collect : Collected → List EnvVar → Collected
unfolding collect_var
collect c [] = c
collect c (v ∷ vars) =
    let skipped = collect c vars in
    let taken = collect (collect_var c v) vars in if v.secret then skipped else taken

abbrev pub dash_of : Option Text → Text
dash_of none = b'-' ∷ []
dash_of (some v) = if is_empty v then b'-' ∷ [] else v

-- The closure `value`.
unfoldable pub value : Collected → Text → Text
unfolding lookup_key
value c key = dash_of (lookup_key key c.values)

-- `_, ok := public[key]`
unfoldable pub has_value : Collected → Text → Bool
unfolding lookup_key
has_value c key = elim (lookup_key key c.values) [ none ↦ false | some v ↦ true ]

unfoldable pub has_party : Collected → Bool
unfolding any has_value lit
has_party c = any (λ prefix. has_value c (prefix ++ lit "_PARTY")) c.prefixes

-- The cells after a bar.
unfoldable pub cells : List Text → Text
unfolding lit
cells [] = []
cells (cell ∷ rest) = b' ' ∷ (cell ++ (lit " |" ++ cells rest))

abbrev quoted : Text → Text
quoted t = b'`' ∷ (t ++ b'`' ∷ [])

unfoldable pub row : Collected → Bool → Text → Text
unfolding cells slot_canonical_from_env_prefix value has_value lit
row c party prefix =
    b'|'
    ∷ (cells (
          quoted (slot_canonical_from_env_prefix prefix)
          ∷ value c (prefix ++ lit "_JSON_API_URL")
          ∷ value c (prefix ++ lit "_GRPC_URL")
          ∷ value c (prefix ++ lit "_ADMIN_GRPC_URL")
          ∷ value c (prefix ++ lit "_VALIDATOR_API_URL")
          ∷ (if has_value c (prefix ++ lit "_PQS_HOST") then lit "yes" else lit "no")
          ∷ (if party then value c (prefix ++ lit "_PARTY") ∷ [] else []))
        ++ b'\n' ∷ [])

unfoldable pub rows : Collected → Bool → List Text → Text
unfolding row
rows c party [] = []
rows c party (prefix ∷ prefixes) = row c party prefix ++ rows c party prefixes

unfoldable pub table_head : Bool → Text
unfolding lit
table_head party =
    lit "| Slot | JSON API | Ledger gRPC | Admin gRPC | Validator API | PQS |"
    ++ ((if party then lit " Party |" else [])
        ++ (lit "\n|---|---|---|---|---|---|"
            ++ ((if party then lit "---|" else []) ++ b'\n' ∷ [])))

unfoldable pub token_row : Collected → List Text → Text
unfolding value lit
token_row c [] = []
token_row c (prefix ∷ prefixes) =
    lit "| OAuth token URL ("
    ++ (quoted (value c (lit "CANTON_LOCALNET_PROFILE"))
        ++ (lit ") | " ++ (value c (prefix ++ lit "_TOKEN_URL") ++ lit " |\n")))

unfoldable pub shared_endpoints : Collected → Text
unfolding value token_row lit
shared_endpoints c =
    lit "\n### Shared endpoints\n\n| Endpoint | URL |\n|---|---|\n"
    ++ (lit "| Scan | "
        ++ (value c (lit "CANTON_LOCALNET_SCAN_URL")
            ++ (lit " |\n| Keycloak | http://"
                ++ (value c (lit "CANTON_LOCALNET_KEYCLOAK_HOST")
                    ++ (b':'
                        ∷ (value c (lit "CANTON_LOCALNET_KEYCLOAK_PORT")
                            ++ (lit " |\n" ++ token_row c c.prefixes)))))))

-- The middle dot of the first line is character 183.
unfoldable pub render_collected : Collected → Text
unfolding value rows table_head has_party shared_endpoints lit
render_collected c =
    lit "CLI "
    ++ (quoted (value c (lit "CANTON_LOCALNET_VERSION"))
        ++ (b' '
            ∷ 183
            ∷ (lit " Splice "
                ++ (quoted (value c (lit "CANTON_LOCALNET_SPLICE_VERSION"))
                    ++ (lit "\n\n### Validators\n\n"
                        ++ (table_head (has_party c)
                            ++ (rows c (has_party c) c.prefixes ++ shared_endpoints c)))))))

-- `renderEnvSummary`
unfoldable pub render_env_summary : List EnvVar → Text
unfolding collect render_collected
render_env_summary vars = render_collected (collect (record { values = []; prefixes = [] }) vars)

-- What the loop skips.
unfoldable pub public_vars : List EnvVar → List EnvVar
unfolding filter
public_vars vars = filter (λ v. not v.secret) vars

collect-public_vars :
    (c : Collected) (vars : List EnvVar) → collect c (public_vars vars) ≡ collect c vars
unfolding collect public_vars
collect-public_vars c [] = refl
collect-public_vars c (v ∷ vars) = elim (Bool-cases v.secret) [
  | inl e ↦ rw (e, not, collect-public_vars c vars) refl
  | inr e ↦ rw (e, not, collect-public_vars (collect_var c v) vars) refl
]

-- Two snapshots whose variables differ in the secret ones only have the same report.
pub render_env_summary-public :
    (vars others : List EnvVar)
    → public_vars vars ≡ public_vars others
    → render_env_summary vars ≡ render_env_summary others
unfolding render_env_summary
render_env_summary-public vars others h =
    ap render_collected
      (sym (collect-public_vars _ vars) ∙ ap (collect _) h ∙ collect-public_vars _ others)
