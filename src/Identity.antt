-- ===== src/Identity.antt =====
-- Agent identities: `normalize_agent_id` and the three `_identity_from_…` of
-- platform_runtime/registration.py. The payloads are JSON data; `repr` is what `str` prints of a
-- list or a `dict`, which no identity field is meant to hold.
pub mod Forms
use liderahenk_test_platform.Base.{
  ℕ, suc, ◌+◌, String, ◌<>◌, Bool, true, false, ◌&&◌, Option, none, some, List, [], ◌∷◌, ◌==◌,
  if◌then◌else◌,
}
use liderahenk_test_platform.Base.Text.{
  is_empty, strip, has_char, before, after, ends_with, drop_right, decimal,
}
use liderahenk_test_platform.Json.{
  ℤ, pos, negsuc, Value, null, bool, num, str, arr, obj, nil, cons, lookup,
}

abbrev pub int_text : ℤ → String
int_text (pos n) = decimal n
int_text (negsuc n) = "-" <> decimal (suc n)

module _ (repr : Value → String) where
  -- `str(v)`
  abbrev pub text_of : Value → String
  text_of null = "None"
  text_of (bool true) = "True"
  text_of (bool false) = "False"
  text_of (num n) = int_text n
  text_of (str s) = s
  text_of v = repr v

-- The head of a distinguished name: the value of its first attribute.
dn_value : String → String
dn_value text =
    if has_char 44 text && has_char 61 text
    then (let head = before 44 text in if has_char 61 head then after 61 head else text)
    else text

drop_host : String → String
drop_host text = if ends_with text "-host" then drop_right 5 text else text

cut_at : ℕ → String → String
cut_at k text = if has_char k text then before k text else text

-- The steps after the strip: 64 is `@`, 47 is `/`, 44 is `,` and 61 is `=`.
unfoldable pub normalize_text : String → String
unfolding cut_at dn_value drop_host has_char before after ends_with drop_right
normalize_text text = drop_host (dn_value (cut_at 47 (cut_at 64 text)))

module _ (repr : Value → String) where
  unfoldable pub normalize_agent_id : Value → Option String
  unfolding normalize_text strip decimal
  normalize_agent_id null = none
  normalize_agent_id v =
      let text = strip (text_of repr v) in
      if is_empty text then none else some (normalize_text text)

  -- `if normalized: return normalized`, for the candidates in turn
  unfoldable pub first_identity : List Value → Option String
  unfolding normalize_agent_id
  first_identity [] = none
  first_identity (v ∷ r) =
      let rest = first_identity r in
      elim (normalize_agent_id v) [
        | none ↦ rest
        | some name ↦ if is_empty name then rest else some name
      ]

  unfoldable pub identity_from_domain_agent : Value → Option String
  unfolding first_identity
  identity_from_domain_agent agent = first_identity (
      lookup "jid" agent
      ∷ lookup "uid" agent
      ∷ lookup "hostname" agent
      ∷ lookup "commonName" agent
      ∷ lookup "distinguishedName" agent
      ∷ [])

  unfoldable pub identity_from_c_agent : Value → Option String
  unfolding first_identity
  identity_from_c_agent agent = first_identity (
      lookup "jid" agent
      ∷ lookup "hostname" agent
      ∷ lookup "agent_id" agent
      ∷ lookup "client_id" agent
      ∷ lookup "dn" agent
      ∷ [])

  -- a list gives its first item, or `None`
  unfoldable pub first_of_list : Value → Value
  first_of_list (arr nil) = null
  first_of_list (arr (cons v _)) = v
  first_of_list v = v

  unfoldable pub first_attr_value : Value → String → Value
  unfolding first_of_list
  first_attr_value entry key = first_of_list (lookup key (lookup "attrs" entry))

  unfoldable pub identity_from_ldap_entry : Value → Option String
  unfolding first_identity first_attr_value
  identity_from_ldap_entry entry =
      first_identity
        (first_attr_value entry "cn" ∷ first_attr_value entry "uid" ∷ lookup "dn" entry ∷ [])
