-- ===== src/Config/Parse.antt =====
-- `options_parse` of source/ati/config.c and the queries. A null result is `rejected`; `none` means that
-- the fuel ran out, and there is more of it than bytes.
use atcc.Prelude.{
  ℕ, zero, suc, Bool, true, false, Option, none, some, List, [], ◌∷◌, ◌++◌, ◌==◌, if◌then◌else◌,
  length,
}
use atcc.Ati.Strings.{Bytes, string_match}
use atcc.Config.{OptTokenKind, opt_ordinal, OptToken, OptLexer, opt_lexer_init, opt_lexer_next}

pub record OptEntry : Type 0 where
  pub value : Bytes
  pub tag : Bytes

pub record Opt : Type 0 where
  pub key : Bytes
  pub entries : List OptEntry

pub data Parsed {ℓ} (A : Type ℓ) : Type ℓ where
  rejected : Parsed A
  parsed : A → Parsed A

abbrev pub is_kind : OptToken → OptTokenKind → Bool
is_kind t kind = opt_ordinal t.kind == opt_ordinal kind

-- an entry for `current`, which is the last option
abbrev pub add_entry : List Opt → OptEntry → List Opt
add_entry [] e = []
add_entry (o ∷ []) e = record o { entries = o.entries ++ e ∷ [] } ∷ []
add_entry (o ∷ p ∷ os) e = o ∷ add_entry (p ∷ os) e

-- An entry of a list, from its first token: the entry, with the lexer behind it.
unfoldable pub list_entry : OptToken → OptLexer → Parsed (OptEntry × OptLexer)
list_entry t l =
    let tag = opt_lexer_next l in
    let value = opt_lexer_next tag.1 in
    let tagged : Parsed (OptEntry × OptLexer) =
      (if is_kind tag.0 OptTokenKind.identifier
        then (if is_kind value.0 OptTokenKind.string
            then Parsed.parsed (record { value = value.0.value; tag = tag.0.value }, value.1)
            else Parsed.rejected)
        else Parsed.rejected) in
    if is_kind t OptTokenKind.at
    then tagged
    else if is_kind t OptTokenKind.string
    then Parsed.parsed (record { value = t.value; tag = [] }, l)
    else Parsed.rejected

-- what follows a list: its closing bracket
abbrev pub closed : OptToken → OptLexer → List Opt → Option (Parsed (List Opt × OptLexer))
closed t l options =
    if is_kind t OptTokenKind.close_bracket
    then some (Parsed.parsed (options, l))
    else some Parsed.rejected

-- the loop over a list and the test behind it
unfoldable pub list_from :
    ℕ → OptToken → OptLexer → List Opt → Option (Parsed (List Opt × OptLexer))
unfolding list_entry
list_from zero t l options = none
list_from (suc fuel) t l options =
    let more : Option (Parsed (List Opt × OptLexer)) = elim (list_entry t l) [
      | Parsed.rejected ↦ some Parsed.rejected
      | Parsed.parsed (e, l') ↦
          let behind = opt_lexer_next l' in
          let next = opt_lexer_next behind.1 in
          let rest = list_from fuel next.0 next.1 (add_entry options e) in
          if is_kind behind.0 OptTokenKind.comma
          then rest
          else closed behind.0 behind.1 (add_entry options e)
    ] in
    if is_kind t OptTokenKind.close_bracket then closed t l options else more

-- what comes behind a list, unless it was rejected
abbrev pub after_list :
    Option (Parsed (List Opt × OptLexer))
    → (OptLexer → List Opt → Option (Parsed (List Opt)))
    → Option (Parsed (List Opt))
after_list none f = none
after_list (some Parsed.rejected) f = some Parsed.rejected
after_list (some (Parsed.parsed (options, l))) f = f l options

-- the loop of `options_parse`; the flag says that there is a `current`
unfoldable pub options_from : ℕ → OptLexer → Bool → List Opt → Option (Parsed (List Opt))
options_from zero l current options = none
options_from (suc fuel) l current options =
    let t = opt_lexer_next l in
    let second = opt_lexer_next t.1 in
    let keyed =
      options_from fuel second.1 true (options ++ record { key = t.0.value; entries = [] } ∷ []) in
    let one =
      options_from fuel t.1 false (add_entry options (record { value = t.0.value; tag = [] })) in
    let many =
      after_list (list_from fuel second.0 second.1 options)
        (λ l' options'. options_from fuel l' false options') in
    let skipped = options_from fuel t.1 true options in
    if is_kind t.0 OptTokenKind.eof
    then some (Parsed.parsed options)
    else if is_kind t.0 OptTokenKind.error
    then some Parsed.rejected
    else if current
    then (if is_kind t.0 OptTokenKind.string
        then one
        else if is_kind t.0 OptTokenKind.open_bracket
        then many
        else skipped)
    else if is_kind t.0 OptTokenKind.identifier
    then (if is_kind second.0 OptTokenKind.equals then keyed else some Parsed.rejected)
    else some Parsed.rejected

unfoldable pub options_parse : Bytes → Bytes → Option (Parsed (List Opt))
unfolding options_from list_from opt_lexer_next opt_lexer_init
options_parse filename text =
    options_from (suc (length text)) (opt_lexer_init filename text) false []

-- The first entry; an option that has none reads as the zeroes that its vector was created with.
abbrev pub first_value : List OptEntry → Bytes
first_value [] = []
first_value (e ∷ es) = e.value

unfoldable pub options_get : List Opt → Bytes → Option Bytes
options_get [] key = none
options_get (o ∷ os) key =
    if string_match o.key key then some (first_value o.entries) else options_get os key

-- whether the key was found, and the value
unfoldable pub options_get_default : List Opt → Bytes → Bytes → Bool × Bytes
unfolding options_get
options_get_default options key default_value = elim (options_get options key) [
  | some value ↦ (true, value)
  | none ↦ (false, default_value)
]

unfoldable pub options_get_list : List Opt → Bytes → Option (List OptEntry)
options_get_list [] key = none
options_get_list (o ∷ os) key =
    if string_match o.key key then some o.entries else options_get_list os key
