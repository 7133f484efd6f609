-- ===== src/Snapshot/Collected.antt =====
-- What a collection whose calls all answer puts into a snapshot.
use liderahenk_test_platform.Base.{
  String, ◌≡◌, ◌≢◌, ◌↔◌, refl, sym, ◌∙◌, true, Option, some, List, [], ◌∷◌, map, contains, arith,
  eq_iff,
}
use liderahenk_test_platform.Base.Sorted.{IsStrict, sorted_keys-IsStrict, contains-sorted_keys}
use liderahenk_test_platform.Json.{ℤ, Value, lookup, str}
use liderahenk_test_platform.Result.{ok}
use liderahenk_test_platform.Identity.{
  normalize_agent_id, first_of_list, first_attr_value, identity_from_ldap_entry,
  identity_from_c_agent, identity_from_domain_agent,
}
use liderahenk_test_platform.ComputerTree.{NodeFields, Nodes, own_id, flatten_tree_agent_ids}
use liderahenk_test_platform.ComputerTree.Reach.{Reaches, flatten_tree_agent_ids-Reaches}
use liderahenk_test_platform.Snapshot.{
  Surfaces, Snapshot, identities, without_server, surface_ids, user_ids, snapshot_of,
  collect_snapshot,
}
use liderahenk_test_platform.Snapshot.Sorting.{tree_ids-IsStrict}
use liderahenk_test_platform.Snapshot.Identities.{
  Any, IsIdentity, first_identity-IsIdentity, normalize-IsIdentity, identities-Any,
  contains-without_server,
}

-- The answers of the calls.
pub record Payloads : Type 0 where
  pub dashboard : Value
  pub agents : List Value
  pub tree : Nodes
  pub entries : List Value
  pub registered : List Value
  pub connected : List Value
  pub rows : List Value
  pub config : Value

abbrev pub answers : Payloads → Surfaces
answers p = record {
  dashboard_info = ok p.dashboard;
  agent_list = ok p.agents;
  computer_tree = ok p.tree;
  ldap_entries = ok p.entries;
  registered_users = ok p.registered;
  connected_users = ok p.connected;
  c_agents = ok p.rows;
  config_json = ok p.config;
}

-- A list without repetition, in order, of what has the property.
abbrev pub IsListOf : (String → Type 0) → List String → Type 0
IsListOf P ids = IsStrict ids × ((a : String) → (contains ids a ≡ true) ↔ P a)

module _ (repr hash_payload : Value → String) where
  -- The first value of an attribute of an entry.
  abbrev pub attribute : String → Value → Value
  attribute key entry = first_of_list repr (lookup key (lookup "attrs" entry))

  -- The fields that may have the identity, in order.
  abbrev pub entry_fields : Value → List Value
  entry_fields e = attribute "cn" e ∷ attribute "uid" e ∷ lookup "dn" e ∷ []

  abbrev pub c_agent_fields : Value → List Value
  c_agent_fields row =
      lookup "jid" row
      ∷ lookup "hostname" row
      ∷ lookup "agent_id" row
      ∷ lookup "client_id" row
      ∷ lookup "dn" row
      ∷ []

  abbrev pub domain_fields : Value → List Value
  domain_fields row =
      lookup "jid" row
      ∷ lookup "uid" row
      ∷ lookup "hostname" row
      ∷ lookup "commonName" row
      ∷ lookup "distinguishedName" row
      ∷ []

  -- Some row has the identity, in these fields.
  abbrev pub Has : (Value → List Value) → List Value → String → Type 0
  Has keys rows a = Any (λ row. IsIdentity repr (keys row) a) rows

  -- An agent, and not the server's own account.
  abbrev pub IsUser : List Value → String → Type 0
  IsUser users a = (a ≢ "lider_sunucu") × Has (λ user. user ∷ []) users a

  abbrev pub InTree : Nodes → String → Type 0
  InTree tree a = (f : NodeFields) × Reaches f tree × (contains (own_id repr f) a ≡ true)

  pub record IsCollected (p : Payloads) (t : Snapshot) : Type 0 where
    pub ldap : IsListOf (Has entry_fields p.entries) t.ldap_ids
    pub registered : IsListOf (IsUser p.registered) t.xmpp_registered
    pub connected : IsListOf (IsUser p.connected) t.xmpp_connected
    pub c_agents : IsListOf (Has c_agent_fields p.rows) t.c_agent_ids
    pub domain : IsListOf (Has domain_fields p.agents) t.domain_agent_ids
    pub tree : IsListOf (InTree p.tree) t.tree_agent_ids
    pub total : t.dashboard.total ≡ lookup "totalComputerNumber" p.dashboard
    pub online : t.dashboard.online ≡ lookup "totalOnlineComputerNumber" p.dashboard
    pub fingerprint : t.config_fingerprint ≡ str (hash_payload p.config)

  surface_ids-IsListOf :
      (f : Value → Option String) (keys : Value → List Value) (rows : List Value)
      → ((row : Value) (a : String) → ((f row ≡ some a) × (a ≢ "")) ↔ IsIdentity repr (keys row) a)
      → IsListOf (Has keys rows) (surface_ids repr hash_payload f rows)
  unfolding surface_ids
  surface_ids-IsListOf f keys rows same =
      let ids = identities (map f rows) in
      (
        sorted_keys-IsStrict ids,
        λ a.
            let kept =
              identities-Any f (λ row b. IsIdentity repr (keys row) b) rows a (λ row. same row a) in
            (
              λ h. kept.0 (sym (contains-sorted_keys ids a) ∙ h),
              λ q. contains-sorted_keys ids a ∙ kept.1 q,
            ),
      )

  user_ids-IsListOf :
      (users : List Value) → IsListOf (IsUser users) (user_ids repr hash_payload users)
  unfolding user_ids
  user_ids-IsListOf users =
      let ids = identities (map (normalize_agent_id repr) users) in
      let agents = without_server ids in
      (
        sorted_keys-IsStrict agents,
        λ a.
            let kept =
              identities-Any (normalize_agent_id repr) (λ user b. IsIdentity repr (user ∷ []) b)
                users a (λ user. normalize-IsIdentity repr user a) in
            let found = contains-sorted_keys agents a ∙ contains-without_server ids a in
            (
              λ h.
                  let both = sym found ∙ h in
                  (
                    λ e. ground (arith, both, eq_iff a "lider_sunucu", e),
                    kept.0 (ground (arith, both)),
                  ),
              λ q. found ∙ ground (arith, kept.1 (q.1), eq_iff a "lider_sunucu", q.0),
            ),
      )

  from_ldap :
      (row : Value) (a : String)
      → ((identity_from_ldap_entry repr row ≡ some a) × (a ≢ ""))
        ↔ IsIdentity repr (entry_fields row) a
  unfolding identity_from_ldap_entry first_attr_value
  from_ldap row a = first_identity-IsIdentity repr (entry_fields row) a

  from_c_agent :
      (row : Value) (a : String)
      → ((identity_from_c_agent repr row ≡ some a) × (a ≢ ""))
        ↔ IsIdentity repr (c_agent_fields row) a
  unfolding identity_from_c_agent
  from_c_agent row a = first_identity-IsIdentity repr (c_agent_fields row) a

  from_domain_agent :
      (row : Value) (a : String)
      → ((identity_from_domain_agent repr row ≡ some a) × (a ≢ ""))
        ↔ IsIdentity repr (domain_fields row) a
  unfolding identity_from_domain_agent
  from_domain_agent row a = first_identity-IsIdentity repr (domain_fields row) a

  tree_ids-IsListOf : (tree : Nodes) → IsListOf (InTree tree) (flatten_tree_agent_ids repr tree)
  tree_ids-IsListOf tree =
      (tree_ids-IsStrict repr hash_payload tree, λ a. flatten_tree_agent_ids-Reaches repr a tree)

  -- A collection whose calls all answer returns a snapshot. Its lists hold, in order and once, exactly
  -- the identities of the rows, each of which is that of the first of its fields to give one; the lists
  -- of users leave the account of the server out, and the list of the computer tree has the agents
  -- that lie in it. The counts of the dashboard and the hash of the configuration are those read.
  pub collect_snapshot-IsCollected :
      (profile : String) (expected : ℤ) (now : String) (p : Payloads)
      → (t : Snapshot) × (collect_snapshot repr hash_payload profile expected now (answers p)
          ≡ ok t)
        × IsCollected p t
  unfolding collect_snapshot snapshot_of
  collect_snapshot-IsCollected profile expected now p = (
    snapshot_of repr hash_payload profile expected now p.dashboard p.agents p.tree p.entries
        p.registered p.connected p.rows p.config,
    refl,
    record {
      ldap = surface_ids-IsListOf (identity_from_ldap_entry repr) _ p.entries from_ldap;
      registered = user_ids-IsListOf p.registered;
      connected = user_ids-IsListOf p.connected;
      c_agents = surface_ids-IsListOf (identity_from_c_agent repr) _ p.rows from_c_agent;
      domain = surface_ids-IsListOf (identity_from_domain_agent repr) _ p.agents from_domain_agent;
      tree = tree_ids-IsListOf p.tree;
      total = refl;
      online = refl;
      fingerprint = refl;
    },
  )
