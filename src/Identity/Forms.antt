-- ===== src/Identity/Forms.antt =====
-- Each surface spells an agent in its own way: bare, as a host name, as a JID or as the head of a
-- distinguished name.
use text.Mathlib.TextLemmas.{nil-append, cons-append, append-nil, append_assoc}
use liderahenk_test_platform.Base.{
  ℕ, String, ◌<>◌, Char, code, ◌≡◌, refl, sym, ap, ◌∙◌, Bool, true, false, ◌&&◌, ◌||◌, some, arith,
  eqb, Bool-cases, inl, inr,
}
use liderahenk_test_platform.Base.Text.{
  is_space, is_empty, lstrip, rstrip, strip, has_char, before, after, ends_with, chars,
}
use liderahenk_test_platform.Base.Text.Append.{
  avoids, has_char-append, before-append, after-append, rstrip-append, ends_with-append,
  drop_right-append,
}
use liderahenk_test_platform.Json.{Value, str}
use liderahenk_test_platform.Identity.{
  normalize_agent_id, normalize_text, cut_at, dn_value, drop_host,
}

-- Space, `@`, `/`, `,` and `=`.
abbrev pub special : ℕ → Bool
special c = is_space c || eqb c 64 || eqb c 47 || eqb c 44 || eqb c 61

-- A text with no such character, and not empty.
pub record IsPlain (a : String) : Type 0 where
  pub named : is_empty a ≡ false
  pub plain : avoids special a ≡ true

pub record IsAgentName (a : String) : Type 0 where
  pub is_plain : IsPlain a
  pub no_host : ends_with a "-host" ≡ false

pub data Spelling : Type 0 where
  bare host : Spelling
  jid : String → Spelling
  dn : String → String → Spelling

abbrev pub spell : Spelling → String → String
spell bare a = a
spell host a = a <> "-host"
spell (jid rest) a = a <> String.◌∷◌ "@" rest
spell (dn key rest) a = key <> String.◌∷◌ "=" (a <> String.◌∷◌ "," rest)

abbrev pub IsSpelling : Spelling → Type 0
IsSpelling (dn key rest) = IsPlain key
IsSpelling _ = Unit

avoids-space : (a : String) → avoids special a ≡ true → avoids is_space a ≡ true
avoids-space String.[] h = refl
avoids-space (String.◌∷◌ c a) h = ground (arith, avoids-space a)

module _ (k : ℕ) (is_special : (c : ℕ) → eqb c k ≡ true → special c ≡ true) where
  avoids-has_char : (a : String) → avoids special a ≡ true → has_char k a ≡ false
  unfolding has_char
  avoids-has_char String.[] h = refl
  avoids-has_char (String.◌∷◌ c a) h = ground (arith, avoids-has_char a, is_special (code c))

module _ (a : String) (p : IsPlain a) where
  no_at : has_char 64 a ≡ false
  no_at = avoids-has_char 64 (λ c h. ground arith) a p.plain

  no_slash : has_char 47 a ≡ false
  no_slash = avoids-has_char 47 (λ c h. ground arith) a p.plain

  no_comma : has_char 44 a ≡ false
  no_comma = avoids-has_char 44 (λ c h. ground arith) a p.plain

  no_equals : has_char 61 a ≡ false
  no_equals = avoids-has_char 61 (λ c h. ground arith) a p.plain

cut_absent : (k : ℕ) (s : String) → has_char k s ≡ false → cut_at k s ≡ s
unfolding cut_at
cut_absent k s h = rw h

dn_absent : (s : String) → has_char 44 s ≡ false → dn_value s ≡ s
unfolding dn_value
dn_absent s h = rw h

lstrip_stays :
    (a t : String) → is_empty a ≡ false → avoids is_space a ≡ true → lstrip (a <> t) ≡ a <> t
unfolding lstrip
lstrip_stays String.[] t n h = cc
lstrip_stays (String.◌∷◌ c a) t n h = rw (cons-append c a t) (ground arith)

strip-append :
    (a t : String) → is_empty a ≡ false → avoids is_space a ≡ true → strip (a <> t) ≡ a <> rstrip t
unfolding strip
strip-append a t n h = rw (lstrip_stays a t n h) (rstrip-append a t h)

strip-IsPlain : (a : String) → IsPlain a → strip a ≡ a
strip-IsPlain a p =
    ap strip (sym (append-nil a))
    ∙ strip-append a "" p.named (avoids-space a p.plain)
    ∙ (unfold rstrip in append-nil a)

-- A text that goes on with the separator is cut before it.
cut_split :
    (k : ℕ) (a : String) (c : Char) (t : String)
    → has_char k a ≡ false
    → eqb (code c) k ≡ true
    → cut_at k (a <> String.◌∷◌ c t) ≡ a
unfolding cut_at has_char before
cut_split k a c t h e =
    rw (has_char-append k a (String.◌∷◌ c t), before-append k a (String.◌∷◌ c t) h, h, e)
      (append-nil a)

-- A separator further on does not touch what stands before.
cut_under :
    (k : ℕ) (a : String) (c : Char) (t : String)
    → has_char k a ≡ false
    → eqb (code c) k ≡ false
    → cut_at k (a <> String.◌∷◌ c t) ≡ a <> String.◌∷◌ c (cut_at k t)
unfolding cut_at has_char before
cut_under k a c t h e = elim (Bool-cases (has_char k t)) [
  | inl f ↦ rw (has_char-append k a (String.◌∷◌ c t), before-append k a (String.◌∷◌ c t) h, h, e, f)
  | inr f ↦ rw (has_char-append k a (String.◌∷◌ c t), h, e, f)
]

abbrev head_text : String → String → String
head_text key a = key <> String.◌∷◌ "=" a

module _ (key a rest : String) (p : IsPlain key) (q : IsPlain a) where
  head_lacks :
      (k : ℕ)
      → has_char k key ≡ false
      → has_char k a ≡ false
      → eqb 61 k ≡ false
      → has_char k (head_text key a) ≡ false
  unfolding has_char
  head_lacks k f g e = rw (has_char-append k key (String.◌∷◌ "=" a), f) (ground arith)

  head_value : after 61 (head_text key a) ≡ a
  unfolding after
  head_value = rw (after-append 61 key (String.◌∷◌ "=" a) (no_equals key p))

  head_has : has_char 61 (head_text key a) ≡ true
  unfolding has_char
  head_has = rw (has_char-append 61 key (String.◌∷◌ "=" a), no_equals key p)

  dn_split : dn_value ((head_text key a) <> String.◌∷◌ "," rest) ≡ a
  unfolding dn_value has_char before
  dn_split =
      let lacks : has_char 44 (head_text key a) ≡ false =
        head_lacks 44 (no_comma key p) (no_comma a q) refl in
      rw
        (
          has_char-append 44 (head_text key a) (String.◌∷◌ "," rest),
          has_char-append 61 (head_text key a) (String.◌∷◌ "," rest),
          lacks,
          head_has,
          before-append 44 (head_text key a) (String.◌∷◌ "," rest) lacks,
          append-nil (head_text key a),
          head_has,
        )
        head_value

drop_host_stays : (a : String) → ends_with a "-host" ≡ false → drop_host a ≡ a
unfolding drop_host
drop_host_stays a h = rw h

drop_host_drops : (a : String) → drop_host (a <> "-host") ≡ a
unfolding drop_host chars
drop_host_drops a = rw (ends_with-append a "-host") (drop_right-append a "-host")

module _ (a : String) (p : IsPlain a) where
  normalize_bare : normalize_text a ≡ drop_host a
  unfolding normalize_text
  normalize_bare =
      rw (cut_absent 64 a (no_at a p), cut_absent 47 a (no_slash a p), dn_absent a (no_comma a p))

  normalize_jid : (rest : String) → normalize_text (a <> String.◌∷◌ "@" rest) ≡ drop_host a
  unfolding normalize_text
  normalize_jid rest = rw (
    cut_split 64 a "@" rest (no_at a p) refl,
    cut_absent 47 a (no_slash a p),
    dn_absent a (no_comma a p),
  )

  normalize_dn :
      (key rest : String)
      → IsPlain key
      → normalize_text (head_text key a <> String.◌∷◌ "," rest) ≡ drop_host a
  unfolding normalize_text
  normalize_dn key rest q = rw (
    cut_under 64 (head_text key a) "," rest
        (head_lacks key a rest q p 64 (no_at key q) (no_at a p) refl) refl,
    cut_under 47 (head_text key a) "," (cut_at 64 rest)
        (head_lacks key a rest q p 47 (no_slash key q) (no_slash a p) refl) refl,
    dn_split key a (cut_at 47 (cut_at 64 rest)) q p,
  )

avoids-append : (t : ℕ → Bool) (a b : String) → avoids t (a <> b) ≡ (avoids t a && avoids t b)
avoids-append t String.[] b = rw (nil-append b)
avoids-append t (String.◌∷◌ c a) b = rw (cons-append c a b) (ground (arith, avoids-append t a b))

is_empty-append : (a b : String) → is_empty a ≡ false → is_empty (a <> b) ≡ false
is_empty-append String.[] b h = cc
is_empty-append (String.◌∷◌ c a) b h = rw (cons-append c a b)

head_avoids : (key a : String) → IsPlain key → IsPlain a → avoids is_space (head_text key a) ≡ true
unfolding is_space
head_avoids key a q p = rw (
  avoids-append is_space key (String.◌∷◌ "=" a),
  avoids-space key q.plain,
  avoids-space a p.plain,
)

spell_dn :
    (key a t : String)
    → key <> String.◌∷◌ "=" (a <> String.◌∷◌ "," t) ≡ head_text key a <> String.◌∷◌ "," t
spell_dn key a t =
    ap (λ x. key <> x) (sym (cons-append "=" a (String.◌∷◌ "," t)))
    ∙ sym (append_assoc key (String.◌∷◌ "=" a) (String.◌∷◌ "," t))

host_IsPlain : (a : String) → IsPlain a → IsPlain (a <> "-host")
unfolding is_space
host_IsPlain a p = record {
  named = is_empty-append a "-host" p.named;
  plain = rw (avoids-append special a "-host", p.plain);
}

rstrip_keep :
    (c : Char) (t : String)
    → is_space (code c) ≡ false
    → rstrip (String.◌∷◌ c t) ≡ String.◌∷◌ c (rstrip t)
unfolding rstrip
rstrip_keep c t h = rw h

module _ (repr : Value → String) where
  normalize_from :
      (s t a : String)
      → strip s ≡ t
      → is_empty t ≡ false
      → normalize_text t ≡ a
      → normalize_agent_id repr (str s) ≡ some a
  unfolding normalize_agent_id
  normalize_from s t a e n h = rw (e, n, h)

  -- An agent name that is not empty, has none of the special characters and does not end in `-host`
  -- is the identity of each of its spellings: bare, as a host name, as a JID with any rest, and as
  -- the head of a distinguished name after a key without special characters.
  pub normalize_agent_id-spell :
      (f : Spelling) (a : String)
      → IsAgentName a
      → IsSpelling f
      → normalize_agent_id repr (str (spell f a)) ≡ some a
  normalize_agent_id-spell bare a n h =
      normalize_from a a a (strip-IsPlain a n.is_plain) n.is_plain.named
        (normalize_bare a n.is_plain ∙ drop_host_stays a n.no_host)
  normalize_agent_id-spell host a n h =
      let p : IsPlain (a <> "-host") = host_IsPlain a n.is_plain in
      normalize_from (a <> "-host") (a <> "-host") a (strip-IsPlain (a <> "-host") p) p.named
        (normalize_bare (a <> "-host") p ∙ drop_host_drops a)
  normalize_agent_id-spell (jid rest) a n h =
      let p = n.is_plain in
      let rest' = rstrip rest in
      normalize_from (a <> String.◌∷◌ "@" rest) (a <> String.◌∷◌ "@" rest') a
        (strip-append a (String.◌∷◌ "@" rest) p.named (avoids-space a p.plain)
          ∙ ap (λ x. a <> x) (rstrip_keep "@" rest (unfold is_space in refl)))
        (is_empty-append a (String.◌∷◌ "@" rest') p.named)
        (normalize_jid a p rest' ∙ drop_host_stays a n.no_host)
  normalize_agent_id-spell (dn key rest) a n h =
      let p = n.is_plain in
      let rest' = rstrip rest in
      let named : is_empty (head_text key a) ≡ false = is_empty-append key _ h.named in
      normalize_from (spell (dn key rest) a) (head_text key a <> String.◌∷◌ "," rest') a
        (ap strip (spell_dn key a rest)
          ∙ strip-append (head_text key a) (String.◌∷◌ "," rest) named (head_avoids key a h p)
          ∙ ap (λ x. head_text key a <> x) (rstrip_keep "," rest (unfold is_space in refl)))
        (is_empty-append (head_text key a) (String.◌∷◌ "," rest') named)
        (normalize_dn a p key rest' h ∙ drop_host_stays a n.no_host)
