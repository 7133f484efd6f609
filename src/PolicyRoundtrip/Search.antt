-- ===== src/PolicyRoundtrip/Search.antt =====
-- The search in a tree against the entries that lie in it, and the reconciliation of a group.
use mathlib.Core.Bool.{false≢true}
use mathlib.Core.Option.{some-injective}
use mathlib.Core.Path.{subst}
use liderahenk_test_platform.Base.{
  ℕ, String, ◌≡◌, ◌≢◌, refl, sym, ap, ◌∙◌, ◌⊎◌, ◌↔◌, inl, inr, Bool, true, false, Option, none,
  some, Bool-cases, eqb, eqb_iff, if◌then◌else◌,
}
use liderahenk_test_platform.Json.{Value, Fields, end, field, is_end}
use liderahenk_test_platform.PolicyRoundtrip.{
  ApiError, http, other, Answer, answer, raised, Api, Created, found_group, reconciled,
  after_creation, create_computer_group_with_reconciliation, Entry, Entries, none_left, then_more,
  entry, below, found_or, find_in, is_named, find_group_entry,
}

raised_not_answer : {x : ApiError} {c : Created} → ◌≢◌ {A = Answer Created} (raised x) (answer c)
raised_not_answer h = cc

none_not_some : {f : Fields} → ◌≢◌ {A = Option Fields} none (some f)
none_not_some h = cc

-- The fields of an entry of the forest, or of one below it.
pub data Lies (f : Fields) : Entries → Type 0 where
  at_root : {others more r : Entries} → Lies f (then_more (entry f more others) r)
  in_rest : {e : Entry} {r : Entries} → Lies f r → Lies f (then_more e r)
  in_child :
      {g : Fields} {more others r : Entries}
      → Lies f (below more others)
      → Lies f (then_more (entry g more others) r)

module _ (test : Fields → Bool) where
  abbrev rest_of : Entries → Entries → Entries → Option Fields
  rest_of more others r = found_or (find_in test (below more others)) (find_in test r)

  find_entry :
      (g : Fields) (more others r : Entries)
      → find_in test (then_more (entry g more others) r)
        ≡ (if test g then some g else rest_of more others r)
  unfolding find_in
  find_entry g none_left others r = refl
  find_entry g (then_more e more) others r = refl

  found_or-some :
      (o p : Option Fields) (f : Fields) → found_or o p ≡ some f → (o ≡ some f) ⊎ (p ≡ some f)
  found_or-some none p f h = inr h
  found_or-some (some g) p f h = elim (Bool-cases (is_end g)) [
    | inl e ↦ inr (sym (ap (λ b. if b then p else some g) e) ∙ h)
    | inr e ↦ inl (sym (ap (λ b. if b then p else some g) e) ∙ h)
  ]

  abbrev Source : Fields → Entries → Type 0
  Source f ns = Lies f ns × (test f ≡ true)

  -- The three ways to find an entry.
  split :
      (g : Fields) (more others r : Entries) (f : Fields)
      → find_in test (then_more (entry g more others) r) ≡ some f
      → ((g ≡ f) × (test g ≡ true))
        ⊎ ((find_in test (below more others) ≡ some f) ⊎ (find_in test r ≡ some f))
  split g more others r f h =
      let e = sym (find_entry g more others r) ∙ h in
      elim (Bool-cases (test g)) [
        | inl t ↦ inl (
          some-injective g f (sym (ap (λ b. if b then some g else rest_of more others r) t) ∙ e),
          t,
        )
        | inr t ↦ inr (
            found_or-some _ _ f (sym (ap (λ b. if b then some g else rest_of more others r) t) ∙ e))
      ]

  as_root :
      (g f : Fields) (more others r : Entries)
      → g ≡ f
      → test g ≡ true
      → Source f (then_more (entry g more others) r)
  as_root g f more others r e t =
      (subst (λ x. Lies x (then_more (entry g more others) r)) e at_root, ap test (sym e) ∙ t)

  find_in-Lies : (ns : Entries) (f : Fields) → find_in test ns ≡ some f → Source f ns
  find_in-Lies none_left f h = absurd (none_not_some {f = f} (unfold find_in in h))
  find_in-Lies (then_more (entry g none_left others) r) f h =
      elim (split g none_left others r f h) [
        | inl (e, t) ↦ as_root g f none_left others r e t
        | inr (inl c) ↦ let q = find_in-Lies others f c in (in_child q.0, q.1)
        | inr (inr c) ↦ let q = find_in-Lies r f c in (in_rest q.0, q.1)
      ]
  find_in-Lies (then_more (entry g (then_more e m) others) r) f h =
      elim (split g (then_more e m) others r f h) [
        | inl (p, t) ↦ as_root g f (then_more e m) others r p t
        | inr (inl c) ↦ let q = find_in-Lies (then_more e m) f c in (in_child q.0, q.1)
        | inr (inr c) ↦ let q = find_in-Lies r f c in (in_rest q.0, q.1)
      ]

  module _ (rejects_empty : test end ≡ false) where
    not_empty : (f : Fields) → test f ≡ true → is_end f ≡ false
    not_empty end t = absurd (false≢true (sym rejects_empty ∙ t))
    not_empty (field k v r) t = refl

    -- Some entry is found.
    abbrev Found : Entries → Type 0
    Found ns = (f : Fields) × (find_in test ns ≡ some f)

    found_later : (o : Option Fields) (f : Fields) → (g : Fields) × (found_or o (some f) ≡ some g)
    found_later none f = (f, refl)
    found_later (some h) f = elim (Bool-cases (is_end h)) [
      | inl e ↦ (f, ap (λ b. if b then some f else some h) e)
      | inr e ↦ (h, ap (λ b. if b then some f else some h) e)
    ]

    Found-at :
        (g : Fields) (more others r : Entries)
        → test g ≡ true
        → Found (then_more (entry g more others) r)
    Found-at g more others r t =
        (g, find_entry g more others r ∙ ap (λ b. if b then some g else rest_of more others r) t)

    Found-rest :
        (g : Fields) (more others r : Entries) → Found r → Found (then_more (entry g more others) r)
    Found-rest g more others r (f, h) = elim (Bool-cases (test g)) [
      | inl t ↦ Found-at g more others r t
      | inr t ↦
          let q = found_later (find_in test (below more others)) f in
          (
            q.0,
            find_entry g more others r
                ∙ ap (λ b. if b then some g else rest_of more others r) t
                ∙ ap (λ o. found_or (find_in test (below more others)) o) h
                ∙ q.1,
          )
    ]

    Found-child :
        (g : Fields) (more others r : Entries)
        → Found (below more others)
        → Found (then_more (entry g more others) r)
    Found-child g more others r (f, h) = elim (Bool-cases (test g)) [
      | inl t ↦ Found-at g more others r t
      | inr t ↦
          let kept = not_empty f (find_in-Lies (below more others) f h).1 in
          (
            f,
            find_entry g more others r
                ∙ ap (λ b. if b then some g else rest_of more others r) t
                ∙ ap (λ o. found_or o (find_in test r)) h
                ∙ ap (λ b. if b then find_in test r else some f) kept,
          )
    ]

    Lies-Found : (f : Fields) {ns : Entries} → Lies f ns → test f ≡ true → Found ns
    Lies-Found f (at_root {others = others} {more = more} {r = r}) t = Found-at f more others r t
    Lies-Found f (in_rest {e = entry g more others} {r = r} p) t =
        Found-rest g more others r (Lies-Found f p t)
    Lies-Found f (in_child {g = g} {more = more} {others = others} {r = r} p) t =
        Found-child g more others r (Lies-Found f p t)

pub find_group_entry_sound :
    (repr : Value → String) (group_name : String) (ns : Entries) (f : Fields)
    → find_group_entry repr group_name ns ≡ some f
    → Lies f ns × (is_named repr group_name f ≡ true)
unfolding find_group_entry
find_group_entry_sound repr group_name ns f h = find_in-Lies (is_named repr group_name) ns f h

-- For a name that no empty entry has, `find_group_entry` finds an entry exactly when one that lies
-- in the tree, as a root or below one, has the name.
pub find_group_entry-Lies :
    (repr : Value → String) (group_name : String) (ns : Entries)
    → is_named repr group_name end ≡ false
    → ((f : Fields) × (find_group_entry repr group_name ns ≡ some f))
      ↔ ((f : Fields) × Lies f ns × (is_named repr group_name f ≡ true))
unfolding find_group_entry
find_group_entry-Lies repr group_name ns named = (
  λ (f, h). let q = find_in-Lies (is_named repr group_name) ns f h in (f, q.0, q.1),
  λ (f, p, t). Lies-Found (is_named repr group_name) named f p t,
)

module _ (repr : Value → String) (e : Api) (group_name : String) (g : Fields) (status : ℕ)
    (text : String) where
  -- The group comes from the tree that was read in the world `w`.
  abbrev IsFromTree : Answer Fields → e.World → Type 0
  IsFromTree a w =
      (tree : Entries) × (a ≡ raised (http 417 text))
      × ((e.get_computer_group_tree w).0 ≡ answer tree)
      × Lies g tree
      × (is_named repr group_name g ≡ true)

  found_sound :
      (s : ℕ) (t : String) (o : Option Fields)
      → found_group s t o ≡ answer (g, some (status, text))
      → (t ≡ text) × (o ≡ some g)
  found_sound s t none h = cc
  found_sound s t (some g') h = (cc, cc)

  reconciled_sound :
      (s : ℕ) (t : String) (a : Answer Entries)
      → reconciled repr e group_name s t a ≡ answer (g, some (status, text))
      → (tree : Entries) × (t ≡ text)
        × (a ≡ answer tree)
        × (find_group_entry repr group_name tree ≡ some g)
  unfolding reconciled
  reconciled_sound s t (raised x) h = cc
  reconciled_sound s t (answer tree) h =
      let q = found_sound s t (find_group_entry repr group_name tree) h in (tree, q.0, refl, q.1)

  -- The answer after an `HTTPError`, by the test on its status.
  abbrev denied_answer : ℕ → String → e.World → Bool → Answer Created × e.World
  denied_answer s t w b =
      if b
      then (
        reconciled repr e group_name s t (e.get_computer_group_tree w).0,
        (e.get_computer_group_tree w).1,
      )
      else (raised (http s t), w)

  after_creation_sound :
      (a : Answer Fields) (w : e.World)
      → (after_creation repr e group_name a w).0 ≡ answer (g, some (status, text))
      → IsFromTree a w
  unfolding after_creation
  after_creation_sound (answer g') w h = cc
  after_creation_sound (raised (other message)) w h = cc
  after_creation_sound (raised (http s t)) w h = elim (Bool-cases (eqb s 417)) [
    | inl denied ↦
        let code : s ≡ 417 = (eqb_iff s 417).0 denied in
        let q =
          reconciled_sound s t (e.get_computer_group_tree w).0
            (sym (ap (λ b. (denied_answer s t w b).0) denied) ∙ h) in
        let p = find_group_entry_sound repr group_name q.0 g q.3 in (q.0, cc, q.2, p.0, p.1)
    | inr kept ↦ absurd (raised_not_answer (sym (ap (λ b. (denied_answer s t w b).0) kept) ∙ h))
  ]

-- If the creation of a group is answered with a group from the tree, then the creation failed with
-- the status 417, the tree was read after it, and the group lies in that tree and has the name.
pub create_computer_group_reconciled :
    (repr : Value → String) (e : Api) (group_name : String) (w : e.World) (g : Fields) (status : ℕ)
    (text : String)
    → (create_computer_group_with_reconciliation repr e group_name w).0
      ≡ answer (g, some (status, text))
    → (tree : Entries) × ((e.create_computer_group group_name w).0 ≡ raised (http 417 text))
      × ((e.get_computer_group_tree (e.create_computer_group group_name w).1).0 ≡ answer tree)
      × Lies g tree
      × (is_named repr group_name g ≡ true)
unfolding create_computer_group_with_reconciliation after_creation reconciled
create_computer_group_reconciled repr e group_name w g status text h =
    after_creation_sound repr e group_name g status text (e.create_computer_group group_name w).0
      (e.create_computer_group group_name w).1 h
