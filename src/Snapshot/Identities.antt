-- ===== src/Snapshot/Identities.antt =====
-- The identities that a collection keeps, against a description of the identity of a row: the first of
-- its fields, in the order of their importance, that gives one.
use mathlib.Core.Bool.{false≢true}
use liderahenk_test_platform.Base.{
  String, ◌≡◌, ◌≢◌, ◌↔◌, refl, sym, ap, ◌∙◌, ◌⊎◌, inl, inr, Bool, true, false, ◌&&◌, not, Option,
  none, some, List, [], ◌∷◌, map, ◌==◌, eq_iff, contains, arith, Bool-cases, if◌then◌else◌,
}
use liderahenk_test_platform.Base.Text.{is_empty}
use liderahenk_test_platform.Json.{Value}
use liderahenk_test_platform.Identity.{normalize_agent_id, first_identity}
use liderahenk_test_platform.Snapshot.{identities, without_server}

-- A predicate at some row.
abbrev pub Any : (Value → Type 0) → List Value → Type 0
Any P [] = ⊥
Any P (x ∷ xs) = P x ⊎ Any P xs

pub Any-map :
    (P Q : Value → Type 0) (rows : List Value)
    → ((row : Value) → P row → Q row)
    → Any P rows
    → Any Q rows
Any-map P Q [] f p = elim p [ ]
Any-map P Q (x ∷ xs) f (inl p) = inl (f x p)
Any-map P Q (x ∷ xs) f (inr p) = inr (Any-map P Q xs f p)

blank→eq : (s : String) → is_empty s ≡ true → s ≡ ""
blank→eq String.[] h = refl
blank→eq (String.◌∷◌ c s) h = absurd (false≢true h)

named : (s : String) → is_empty s ≡ false → s ≢ ""
named s h e = false≢true (sym h ∙ ap is_empty e)

not_blank : (s : String) → s ≢ "" → is_empty s ≡ false
not_blank String.[] h = absurd (h refl)
not_blank (String.◌∷◌ c s) h = refl

some→eq : (a b : String) → some a ≡ some b → a ≡ b
some→eq a b h = cc

module _ (repr : Value → String) where
  -- The identity of a row with these fields.
  pub data IsIdentity : List Value → String → Type 0 where
    here :
        {v : Value} {r : List Value} {a : String}
        → normalize_agent_id repr v ≡ some a
        → a ≢ ""
        → IsIdentity (v ∷ r) a
    later :
        {v : Value} {r : List Value} {a : String}
        → (normalize_agent_id repr v ≡ none) ⊎ (normalize_agent_id repr v ≡ some "")
        → IsIdentity r a
        → IsIdentity (v ∷ r) a

  pub IsIdentity-named : (vs : List Value) (a : String) → IsIdentity vs a → a ≢ ""
  IsIdentity-named _ a (here e n) = n
  IsIdentity-named _ a (later e p) = IsIdentity-named _ a p

  first_identity-none :
      (v : Value) (r : List Value)
      → normalize_agent_id repr v ≡ none
      → first_identity repr (v ∷ r) ≡ first_identity repr r
  unfolding first_identity
  first_identity-none v r e = rw (first_identity, e) refl

  first_identity-some :
      (v : Value) (r : List Value) (name : String)
      → normalize_agent_id repr v ≡ some name
      → first_identity repr (v ∷ r) ≡ (if is_empty name then first_identity repr r else some name)
  unfolding first_identity
  first_identity-some v r name e = rw (first_identity, e) refl

  first→IsIdentity :
      (vs : List Value) (a : String) → first_identity repr vs ≡ some a → IsIdentity vs a
  unfolding first_identity
  first→IsIdentity [] a h = cc
  first→IsIdentity (v ∷ r) a h = by_first (normalize_agent_id repr v) refl (first→IsIdentity r a)
    where
      by_first :
          (o : Option String)
          → normalize_agent_id repr v ≡ o
          → (first_identity repr r ≡ some a → IsIdentity r a)
          → IsIdentity (v ∷ r) a
      by_first none e next = later (inl e) (next (sym (first_identity-none v r e) ∙ h))
      by_first (some name) e next =
          by_name (is_empty name) refl (sym (first_identity-some v r name e) ∙ h)
        where
          by_name :
              (b : Bool)
              → is_empty name ≡ b
              → (if b then first_identity repr r else some name) ≡ some a
              → IsIdentity (v ∷ r) a
          by_name true blank q = later (inr (e ∙ ap some (blank→eq name blank))) (next q)
          by_name false filled q = here (e ∙ q) (λ z. named name filled (some→eq name a q ∙ z))

  IsIdentity→first :
      (vs : List Value) (a : String) → IsIdentity vs a → first_identity repr vs ≡ some a
  IsIdentity→first [] a p = elim p [ ]
  IsIdentity→first (v ∷ r) a (here e n) = first_identity-some v r a e ∙ rw (not_blank a n) refl
  IsIdentity→first (v ∷ r) a (later (inl e) p) = first_identity-none v r e ∙ IsIdentity→first r a p
  IsIdentity→first (v ∷ r) a (later (inr e) p) =
      first_identity-some v r "" e ∙ IsIdentity→first r a p

  pub first_identity-IsIdentity :
      (vs : List Value) (a : String)
      → ((first_identity repr vs ≡ some a) × (a ≢ "")) ↔ IsIdentity vs a
  first_identity-IsIdentity vs a =
      (λ h. first→IsIdentity vs a (h.0), λ p. (IsIdentity→first vs a p, IsIdentity-named vs a p))

  pub normalize-IsIdentity :
      (v : Value) (a : String)
      → ((normalize_agent_id repr v ≡ some a) × (a ≢ "")) ↔ IsIdentity (v ∷ []) a
  normalize-IsIdentity v a = (λ h. here (h.0) (h.1), back)
    where
      back : IsIdentity (v ∷ []) a → (normalize_agent_id repr v ≡ some a) × (a ≢ "")
      back (here e n) = (e, n)
      back (later e p) = elim p [ ]

-- The identities that are kept, from those of the rows.
listed :
    (f : Value → Option String) (rows : List Value) (a : String)
    → contains (identities (map f rows)) a ≡ true
    → Any (λ row. (f row ≡ some a) × (a ≢ "")) rows
unfolding identities
listed f [] a h = absurd (false≢true h)
listed f (row ∷ r) a h = by_row (f row) refl (listed f r a) h
  where
    by_id :
        (id : String) (b : Bool)
        → f row ≡ some id
        → is_empty id ≡ b
        → (contains (identities (map f r)) a ≡ true → Any (λ row. (f row ≡ some a) × (a ≢ "")) r)
        → contains (if b then identities (map f r) else id ∷ identities (map f r)) a ≡ true
        → Any (λ row. (f row ≡ some a) × (a ≢ "")) (row ∷ r)
    by_id id true e blank next q = inr (next q)
    by_id id false e filled next q = elim (Bool-cases (a == id)) [
      | inl same ↦
          let at_id : a ≡ id = (eq_iff a id).0 same in
          inl (e ∙ ap some (sym at_id), λ z. named id filled (sym at_id ∙ z))
      | inr different ↦ inr (next (ground (arith, q, different)))
    ]

    by_row :
        (o : Option String)
        → f row ≡ o
        → (contains (identities (map f r)) a ≡ true → Any (λ row. (f row ≡ some a) × (a ≢ "")) r)
        → contains (identities (o ∷ map f r)) a ≡ true
        → Any (λ row. (f row ≡ some a) × (a ≢ "")) (row ∷ r)
    by_row none e next q = inr (next q)
    by_row (some id) e next q = by_id id (is_empty id) e refl next q

identities-more :
    (o : Option String) (os : List (Option String)) (a : String)
    → contains (identities os) a ≡ true
    → contains (identities (o ∷ os)) a ≡ true
unfolding identities
identities-more none os a h = h
identities-more (some id) os a h = ground (arith, h)

identities-some :
    (o : Option String) (os : List (Option String)) (a : String)
    → o ≡ some a
    → a ≢ ""
    → contains (identities (o ∷ os)) a ≡ true
unfolding identities
identities-some none os a e n = cc
identities-some (some id) os a e n =
    let same : id ≡ a = some→eq id a e in
    let filled : is_empty id ≡ false = not_blank id (λ z. n (sym same ∙ z)) in
    ground (arith, filled, eq_iff a id, same)

listed_conv :
    (f : Value → Option String) (rows : List Value) (a : String)
    → Any (λ row. (f row ≡ some a) × (a ≢ "")) rows
    → contains (identities (map f rows)) a ≡ true
listed_conv f [] a p = elim p [ ]
listed_conv f (row ∷ r) a (inl (e, n)) = identities-some (f row) (map f r) a e n
listed_conv f (row ∷ r) a (inr p) = identities-more (f row) (map f r) a (listed_conv f r a p)

-- Kept is what some row has.
pub identities-Any :
    (f : Value → Option String) (P : Value → String → Type 0) (rows : List Value) (a : String)
    → ((row : Value) → ((f row ≡ some a) × (a ≢ "")) ↔ P row a)
    → (contains (identities (map f rows)) a ≡ true) ↔ Any (λ row. P row a) rows
identities-Any f P rows a same = (
  λ h. Any-map _ _ rows (λ row. (same row).0) (listed f rows a h),
  λ p. listed_conv f rows a (Any-map _ _ rows (λ row. (same row).1) p),
)

pub contains-without_server :
    (ids : List String) (a : String)
    → contains (without_server ids) a ≡ (contains ids a && not (a == "lider_sunucu"))
unfolding without_server
contains-without_server [] a = refl
contains-without_server (id ∷ r) a = ground (
  arith,
  contains-without_server r a,
  eq_iff a id,
  eq_iff id "lider_sunucu",
  eq_iff a "lider_sunucu",
)
