-- ===== src/Verdict/Agents.antt =====
-- The states of the agents in a verdict that passes.
use liderahenk_test_platform.Base.{
  String, ◌≡◌, ◌≢◌, refl, sym, ap, ◌∙◌, ◌↔◌, Bool, true, false, ◌||◌, List, [], ◌∷◌, map, length,
  contains, contains-append, arith, eq_iff, All,
}
use liderahenk_test_platform.Base.Sorted.{
  sorted_keys, sorted_keys-IsStrict, sorted_keys_unique, contains-sorted_keys,
}
use liderahenk_test_platform.Base.Sorted.Subset.{IsSubset, eq_of_subset}
use liderahenk_test_platform.Json.{pos}
use liderahenk_test_platform.Snapshot.{Snapshot}
use liderahenk_test_platform.Snapshot.Sorting.{IsSortedSnapshot}
use liderahenk_test_platform.Verdict.{
  AgentState, all_ids, names_of, state_flags, agent_state, per_agent_state, evaluate_snapshot,
}
use liderahenk_test_platform.Verdict.Parity.{IsParity, evaluate_snapshot_pass}

-- An identity is among `all_ids` when a surface lists it.
contains-all_ids :
    (s : Snapshot) (a : String)
    → contains (all_ids s) a ≡ (
        contains s.ldap_ids a
        || (contains s.xmpp_registered a
            || (contains s.xmpp_connected a
                || (contains s.c_agent_ids a
                    || (contains s.domain_agent_ids a || contains s.tree_agent_ids a)))))
contains-all_ids s a = simp contains-append

length-map {ℓ κ} :
    {A : Type ℓ} {B : Type κ} (f : A → B) (xs : List A) → length (map f xs) ≡ length xs
length-map f [] = refl
length-map f (x ∷ xs) = omega (arith, length-map f xs)

module _ (s : Snapshot) (p : IsParity s) (sorted : IsSortedSnapshot s) where
  -- The identities in a verdict are those of the directory and of the connected users.
  contains_parity :
      (a : String) → contains (all_ids s) a ≡ (contains s.ldap_ids a || contains s.xmpp_connected a)
  contains_parity a =
      contains-all_ids s a ∙ rw (p.registered, p.c_agents, p.domain, p.tree) (ground arith)

  ids_parity : IsSubset s.xmpp_connected s.ldap_ids → sorted_keys (all_ids s) ≡ s.ldap_ids
  ids_parity sub =
      sorted_keys_unique (all_ids s) s.ldap_ids sorted.ldap
        λ a. contains_parity a ∙ ground (arith, sub a)

  ids_length→subset :
      length (sorted_keys (all_ids s)) ≡ length s.ldap_ids → IsSubset s.xmpp_connected s.ldap_ids
  ids_length→subset e a m =
      let same : s.ldap_ids ≡ sorted_keys (all_ids s) =
        eq_of_subset s.ldap_ids (sorted_keys (all_ids s)) sorted.ldap
          (sorted_keys-IsStrict (all_ids s))
          (λ b n. contains-sorted_keys (all_ids s) b ∙ contains_parity b ∙ ground arith)
          (omega arith) in
      ap (λ (l : List String). contains l a) same
      ∙ contains-sorted_keys (all_ids s) a
      ∙ contains_parity a
      ∙ ground arith

  same_connected : IsSubset s.xmpp_connected s.ldap_ids → s.xmpp_connected ≡ s.ldap_ids
  same_connected sub =
      eq_of_subset s.xmpp_connected s.ldap_ids sorted.connected sorted.ldap sub
        (omega (arith, p.connected))

stranger_state :
    (s : Snapshot)
    → IsParity s
    → (a : String) → contains s.xmpp_connected a ≡ true
    → contains s.ldap_ids a ≡ false
    → (agent_state s a).highest_state ≡ "register_sent"
unfolding agent_state state_flags names_of
stranger_state s p a c absent = rw (p.registered, c, p.c_agents, p.domain, p.tree, absent)

-- Every flag of an agent that all surfaces list.
ready_state :
    (s : Snapshot)
    → IsParity s
    → s.xmpp_connected ≡ s.ldap_ids
    → (a : String) → contains s.ldap_ids a ≡ true
    → (agent_state s a).highest_state ≡ "domain_ready"
unfolding agent_state state_flags names_of
ready_state s p c a m = rw (p.registered, c, p.c_agents, p.domain, p.tree, m)

All-map {ℓ} :
    {B : Type ℓ} (P : B → Type 0) (f : String → B) (xs : List String)
    → ((a : String) → contains xs a ≡ true → P (f a))
    → All P (map f xs)
All-map P f [] h = tt
All-map P f (x ∷ xs) h =
    (h x (ground (arith, eq_iff x x)), All-map P f xs (λ a m. h a (ground arith)))

map-agent_id :
    (s : Snapshot) (xs : List String) → map (λ st. st.agent_id) (map (agent_state s) xs) ≡ xs
unfolding agent_state
map-agent_id s [] = refl
map-agent_id s (x ∷ xs) = ap (λ l. x ∷ l) (map-agent_id s xs)

abbrev pub ids_of : List AgentState → List String
ids_of = map (λ st. st.agent_id)

module _ (s : Snapshot) (timed_out : Bool) (errors : List String)
    (sorted : IsSortedSnapshot s) where
  abbrev agents : List AgentState
  agents = (evaluate_snapshot s timed_out errors).per_agent

  module _ (passes : (evaluate_snapshot s timed_out errors).status ≡ "pass") where
    parity : IsParity s
    parity = ((evaluate_snapshot_pass s timed_out errors).0 passes).1

    agents_length : length agents ≡ length (sorted_keys (all_ids s))
    unfolding evaluate_snapshot per_agent_state
    agents_length = length-map (agent_state s) (sorted_keys (all_ids s))

    -- Let a snapshot with strictly sorted lists pass. If only agents of the directory are connected,
    -- then the verdict lists exactly the agents of the directory, as many as expected, and each of
    -- them has reached `domain_ready`.
    pub pass_agents_ready :
        IsSubset s.xmpp_connected s.ldap_ids
        → (ids_of agents ≡ s.ldap_ids)
          × All (λ st. st.highest_state ≡ "domain_ready") agents
          × (pos (length agents) ≡ s.expected_agents)
    unfolding evaluate_snapshot per_agent_state
    pass_agents_ready sub =
        let ids : sorted_keys (all_ids s) ≡ s.ldap_ids = ids_parity s parity sorted sub in
        (
          map-agent_id s (sorted_keys (all_ids s)) ∙ ids,
          rw ids (
              All-map (λ st. st.highest_state ≡ "domain_ready") (agent_state s) s.ldap_ids
                (ready_state s parity (same_connected s parity sorted sub))),
          ap pos (agents_length ∙ ap length ids) ∙ sym parity.expected,
        )

    -- If a snapshot with strictly sorted lists passes, then the verdict lists as many agents as
    -- expected exactly when every connected user is an agent of the directory.
    pub pass_agents_counted :
        (pos (length agents) ≡ s.expected_agents) ↔ IsSubset s.xmpp_connected s.ldap_ids
    pass_agents_counted = (
      λ e.
          let same : pos (length agents) ≡ pos (length s.ldap_ids) = e ∙ parity.expected in
          ids_length→subset s parity sorted (sym agents_length ∙ cc),
      λ sub. (pass_agents_ready sub).2,
    )

    -- If a snapshot with strictly sorted lists passes although a connected user is no agent of the
    -- directory, then the verdict lists that user, the highest state of that user is
    -- `register_sent`, and the verdict lists another number of agents than expected.
    pub pass_with_stranger :
        (a : String)
        → contains s.xmpp_connected a ≡ true
        → contains s.ldap_ids a ≡ false
        → (contains (ids_of agents) a ≡ true)
          × ((agent_state s a).highest_state ≡ "register_sent")
          × (pos (length agents) ≢ s.expected_agents)
    unfolding evaluate_snapshot per_agent_state
    pass_with_stranger a c absent = (
      ap (λ (l : List String). contains l a) (map-agent_id s (sorted_keys (all_ids s)))
          ∙ contains-sorted_keys (all_ids s) a
          ∙ contains_parity s parity sorted a
          ∙ ground arith,
      stranger_state s parity a c absent,
      λ e. cc (pass_agents_counted.0 e a c, absent),
    )
