-- ===== src/Verdict/Parity.antt =====
-- The twelve checks against a description of agreement between the surfaces.
use liderahenk_test_platform.Base.{
  String, ◌≡◌, ◌≢◌, refl, sym, ap, ◌∙◌, ◌↔◌, Bool, true, false, ◌&&◌, List, [], ◌∷◌, is_nil, length,
  same_texts, same_texts→eq, same_texts_refl, arith, eqb_iff, eq_iff, if◌then◌else◌,
}
use liderahenk_test_platform.Json.{ℤ, pos, negsuc, num, nat, int_eq, value_eq}
use liderahenk_test_platform.Json.Laws.{int_eq_refl}
use liderahenk_test_platform.Snapshot.{Snapshot}
use liderahenk_test_platform.Verdict.{all_set, checks_of, evaluate_snapshot}
use liderahenk_test_platform.Verdict.Failures.{status_lem}

-- All surfaces but the connected users name the agents of the directory, who are as many as
-- expected; the connected users are as many, and the dashboard counts the same.
pub record IsParity (s : Snapshot) : Type 0 where
  pub expected : s.expected_agents ≡ pos (length s.ldap_ids)
  pub registered : s.xmpp_registered ≡ s.ldap_ids
  pub c_agents : s.c_agent_ids ≡ s.ldap_ids
  pub domain : s.domain_agent_ids ≡ s.ldap_ids
  pub tree : s.tree_agent_ids ≡ s.ldap_ids
  pub connected : length s.xmpp_connected ≡ length s.ldap_ids
  pub total : value_eq s.dashboard.total (nat (length s.ldap_ids)) ≡ true
  pub online : value_eq s.dashboard.online (nat (length s.ldap_ids)) ≡ true

pub int_eq→eq : (a b : ℤ) → int_eq a b ≡ true → a ≡ b
int_eq→eq (pos a) (pos b) h = ap pos ((eqb_iff a b).0 h)
int_eq→eq (pos a) (negsuc b) h = cc
int_eq→eq (negsuc a) (pos b) h = cc
int_eq→eq (negsuc a) (negsuc b) h = ap negsuc ((eqb_iff a b).0 h)

-- The conjuncts of the twelve checks.
abbrev Passed : Snapshot → Type 0
Passed s =
    (int_eq (pos (length s.ldap_ids)) s.expected_agents ≡ true)
    × (int_eq (pos (length s.xmpp_registered)) s.expected_agents ≡ true)
    × (int_eq (pos (length s.xmpp_connected)) s.expected_agents ≡ true)
    × (int_eq (pos (length s.c_agent_ids)) s.expected_agents ≡ true)
    × (int_eq (pos (length s.domain_agent_ids)) s.expected_agents ≡ true)
    × (int_eq (pos (length s.tree_agent_ids)) s.expected_agents ≡ true)
    × (value_eq s.dashboard.total (num s.expected_agents) ≡ true)
    × (value_eq s.dashboard.online (nat (length s.xmpp_connected)) ≡ true)
    × (same_texts s.ldap_ids s.xmpp_registered ≡ true)
    × (same_texts s.ldap_ids s.c_agent_ids ≡ true)
    × (same_texts s.c_agent_ids s.domain_agent_ids ≡ true)
    × (same_texts s.c_agent_ids s.tree_agent_ids ≡ true)

passed : (s : Snapshot) → all_set (checks_of s) ≡ true → Passed s
unfolding checks_of
passed s h = ground arith

passed_conv : (s : Snapshot) → Passed s → all_set (checks_of s) ≡ true
unfolding checks_of
passed_conv s h = ground arith

module _ (s : Snapshot) (h : Passed s) where
  expected_lem : s.expected_agents ≡ pos (length s.ldap_ids)
  expected_lem = sym (int_eq→eq (pos (length s.ldap_ids)) s.expected_agents h.0)

  connected_lem : length s.xmpp_connected ≡ length s.ldap_ids
  connected_lem =
      let same : pos (length s.xmpp_connected) ≡ pos (length s.ldap_ids) =
        int_eq→eq (pos (length s.xmpp_connected)) s.expected_agents h.2 ∙ expected_lem in
      cc

  c_agents_lem : s.c_agent_ids ≡ s.ldap_ids
  c_agents_lem = sym (same_texts→eq s.ldap_ids s.c_agent_ids h.9)

  Passed→IsParity : IsParity s
  Passed→IsParity = record {
    expected = expected_lem;
    registered = sym (same_texts→eq s.ldap_ids s.xmpp_registered h.8);
    c_agents = c_agents_lem;
    domain = sym (same_texts→eq s.c_agent_ids s.domain_agent_ids h.10) ∙ c_agents_lem;
    tree = sym (same_texts→eq s.c_agent_ids s.tree_agent_ids h.11) ∙ c_agents_lem;
    connected = connected_lem;
    total = ap (λ n. value_eq s.dashboard.total (num n)) (sym expected_lem) ∙ h.6;
    online = ap (λ n. value_eq s.dashboard.online (nat n)) (sym connected_lem) ∙ h.7;
  }

module _ (s : Snapshot) (p : IsParity s) where
  counted :
      (xs : List String)
      → length xs ≡ length s.ldap_ids
      → int_eq (pos (length xs)) s.expected_agents ≡ true
  counted xs e = rw p.expected (rw e (int_eq_refl (pos (length s.ldap_ids))))

  named : (xs ys : List String) → xs ≡ s.ldap_ids → ys ≡ s.ldap_ids → same_texts xs ys ≡ true
  named xs ys e f = rw e (rw f (same_texts_refl s.ldap_ids))

  IsParity→Passed : Passed s
  IsParity→Passed = (
    counted s.ldap_ids refl,
    counted s.xmpp_registered (ap length p.registered),
    counted s.xmpp_connected p.connected,
    counted s.c_agent_ids (ap length p.c_agents),
    counted s.domain_agent_ids (ap length p.domain),
    counted s.tree_agent_ids (ap length p.tree),
    ap (λ n. value_eq s.dashboard.total (num n)) p.expected ∙ p.total,
    ap (λ n. value_eq s.dashboard.online (nat n)) p.connected ∙ p.online,
    named s.ldap_ids s.xmpp_registered refl p.registered,
    named s.ldap_ids s.c_agent_ids refl p.c_agents,
    named s.c_agent_ids s.domain_agent_ids p.c_agents p.domain,
    named s.c_agent_ids s.tree_agent_ids p.c_agents p.tree,
  )

pass_ne_fail : ◌≢◌ {A = String} "pass" "fail"
pass_ne_fail = ground (arith, eq_iff "pass" "fail")

-- The checks all pass exactly when the surfaces agree.
pub checks_of-IsParity : (s : Snapshot) → (all_set (checks_of s) ≡ true) ↔ IsParity s
checks_of-IsParity s =
    (λ h. Passed→IsParity s (passed s h), λ p. passed_conv s (IsParity→Passed s p))

pass_cases :
    (errors : List String) (b : Bool)
    → ◌≡◌ {A = String} (if is_nil errors && b then "pass" else "fail") "pass"
    → (errors ≡ []) × (b ≡ true)
pass_cases [] true h = (refl, refl)
pass_cases [] false h = absurd (pass_ne_fail (sym h))
pass_cases (e ∷ r) b h = absurd (pass_ne_fail (sym h))

-- The verdict is `pass` exactly when no adapter failed and the surfaces agree, timed out or not.
pub evaluate_snapshot_pass :
    (s : Snapshot) (timed_out : Bool) (errors : List String)
    → ((evaluate_snapshot s timed_out errors).status ≡ "pass") ↔ ((errors ≡ []) × IsParity s)
evaluate_snapshot_pass s timed_out errors = (
  λ h.
      let c = pass_cases errors (all_set (checks_of s)) (sym (status_lem s timed_out errors) ∙ h) in
      (c.0, (checks_of-IsParity s).0 c.1),
  λ (none_failed, p). status_lem s timed_out errors ∙ rw (none_failed, (checks_of-IsParity s).1 p),
)
