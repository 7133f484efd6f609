-- ===== src/Gate/Discovery.antt =====
-- The choice of an address in `_discover_compose_service_ip` of services/ahenk/liderapi_gate.py. A
-- container is the list of its networks, each with its name and the text of its address; the Docker
-- socket that lists them and the preferred suffix are arguments.
use liderahenk_test_platform.Base.{
  String, ◌≡◌, refl, sym, ap, ◌∙◌, Bool, true, not, ◌&&◌, Option, none, some, List, [], ◌∷◌,
  Bool-cases, inl, inr, if◌then◌else◌,
}
use liderahenk_test_platform.Base.Text.{strip, is_empty, ends_with}

abbrev pub Networks : Type 0
Networks = List (String × String)

-- `a or b`, of two addresses that may be missing
abbrev pub or_ip : Option String → Option String → Option String
or_ip none b = b
or_ip (some a) b = some a

abbrev pub is_preferred : String → String → Bool
is_preferred suffix name = not (is_empty suffix) && ends_with name suffix

-- The loop over the networks, from the fallback so far: the preferred address and the fallback.
unfoldable pub choose : String → Option String → Networks → Option String × Option String
unfolding strip ends_with
choose suffix fallback [] = (none, fallback)
choose suffix fallback ((name, raw) ∷ r) =
    let skipped = choose suffix fallback r in
    let next = choose suffix (or_ip fallback (some (strip raw))) r in
    if is_empty (strip raw)
    then skipped
    else if is_preferred suffix name
    then (some (strip raw), or_ip fallback (some (strip raw)))
    else next

-- The first container that has an address.
unfoldable pub discover_ip : String → List Networks → Option String
unfolding choose
discover_ip suffix [] = none
discover_ip suffix (networks ∷ r) =
    let (preferred, fallback) = choose suffix none networks in
    let rest = discover_ip suffix r in or_ip (or_ip preferred fallback) rest

-- The first address that is not blank, of the networks that the test admits.
abbrev pub first_ip : (String → Bool) → Networks → Option String
first_ip admits [] = none
first_ip admits ((name, raw) ∷ r) =
    let rest = first_ip admits r in
    if not (is_empty (strip raw)) && admits name then some (strip raw) else rest

abbrev pub first_of : (Networks → Option String) → List Networks → Option String
first_of f [] = none
first_of f (networks ∷ r) = or_ip (f networks) (first_of f r)

abbrev pub any_name : String → Bool
any_name name = true

or_ip_assoc : (a b c : Option String) → or_ip (or_ip a b) c ≡ or_ip a (or_ip b c)
or_ip_assoc none b c = refl
or_ip_assoc (some a) b c = refl

or_ip-none : (a : Option String) → or_ip a none ≡ a
or_ip-none none = refl
or_ip-none (some a) = refl

choose_lem :
    (suffix : String) (fallback : Option String) (networks : Networks)
    → or_ip (choose suffix fallback networks).0 (choose suffix fallback networks).1
      ≡ or_ip
          (first_ip (is_preferred suffix) networks)
          (or_ip fallback (first_ip any_name networks))
unfolding choose
choose_lem suffix fallback [] = sym (or_ip-none fallback)
choose_lem suffix fallback ((name, raw) ∷ r) = elim (Bool-cases (is_empty (strip raw))) [
  | inl blank ↦ rw blank (choose_lem suffix fallback r)
  | inr there ↦ elim (Bool-cases (is_preferred suffix name)) [
    | inl chosen ↦ rw (there, chosen) refl
    | inr other ↦
        rw (there, other)
          (choose_lem suffix (or_ip fallback (some (strip raw))) r
            ∙ ap (λ o. or_ip (first_ip (is_preferred suffix) r) o)
                (or_ip_assoc fallback (some (strip raw)) (first_ip any_name r)))
  ]
]

-- The address is that of the first container with one, and in it the first of a network with the
-- preferred suffix, or else the first of any network; blank addresses do not count.
pub discover_ip_lem :
    (suffix : String) (containers : List Networks)
    → discover_ip suffix containers
      ≡ first_of
          (λ networks. or_ip (first_ip (is_preferred suffix) networks) (first_ip any_name networks))
          containers
unfolding discover_ip
discover_ip_lem suffix [] = refl
discover_ip_lem suffix (networks ∷ r) =
    rw (choose_lem suffix none networks, discover_ip_lem suffix r) refl
