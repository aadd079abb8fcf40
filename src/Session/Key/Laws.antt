-- ===== src/Session/Key/Laws.antt =====
-- Which messages share a session key.
use open_crank.Prelude.{
  Bool-cases, Bytes, codes, drop, is_empty, keep, ◌≡◌, refl, sym, ap, ◌∙◌, ◌↔◌, inl, inr, some, [],
  ◌∷◌, ◌++◌, arith,
}
use open_crank.Text.Trim.{trim, lower, to_lower}
use open_crank.Text.Trim.Laws.{lower_idem}
use open_crank.Session.Key.{
  main_scope, per_peer, PeerKind, dm, default_agent_id, default_main_key, is_id_char,
  normalize_agent_id, sanitize_agent_id, or_default, kind_prefix, scoped, build, build_main,
}

to_lower-append : (s t : Bytes) → to_lower (s ++ t) ≡ to_lower s ++ to_lower t
unfolding to_lower
to_lower-append [] t = refl
to_lower-append (c ∷ s) t = ap (◌∷◌ (lower c)) (to_lower-append s t)

append-cancel : (s t u : Bytes) → s ++ t ≡ s ++ u → t ≡ u
append-cancel [] t u e = e
append-cancel (c ∷ s) t u e = append-cancel s t u (ap (drop 1) e)

to_lower-keep : (s : Bytes) → to_lower (keep is_id_char (to_lower s)) ≡ keep is_id_char (to_lower s)
unfolding to_lower
to_lower-keep [] = refl
to_lower-keep (c ∷ s) = ground (arith, to_lower-keep s, lower_idem c)

to_lower-sanitize : (s : Bytes) → to_lower (sanitize_agent_id s) ≡ sanitize_agent_id s
unfolding sanitize_agent_id normalize_agent_id to_lower
to_lower-sanitize s = elim (Bool-cases (is_empty (keep is_id_char (normalize_agent_id s)))) [
  | inl t ↦ rw t
  | inr f ↦ rw f (to_lower-keep (trim s))
]

-- The part of a key that names the agent.
agent_head : Bytes → Bytes
agent_head safe_agent = codes "agent:" ++ safe_agent ++ codes ":"

to_lower-main :
    (x : Bytes)
    → to_lower x ≡ x
    → to_lower (agent_head x ++ default_main_key) ≡ agent_head x ++ default_main_key
unfolding agent_head to_lower
to_lower-main x e =
    to_lower-append (codes "agent:" ++ x ++ codes ":") default_main_key
    ∙ ap (λ s. s ++ default_main_key)
        (to_lower-append (codes "agent:" ++ x) (codes ":")
          ∙ ap (λ s. s ++ codes ":")
              (to_lower-append (codes "agent:") x ∙ ap (λ s. codes "agent:" ++ s) e))

-- With the main scope, every direct message to an agent gets the agent's main key, whatever the
-- channel, the account and the peer are.
pub build-build_main :
    (agent_id channel_name account_id id : Bytes)
    → build agent_id channel_name account_id (some (record { kind = dm; id = id })) main_scope
      ≡ build_main agent_id
unfolding build build_main scoped agent_head
build-build_main agent_id channel_name account_id id =
    let agent = or_default agent_id default_agent_id in
    to_lower-main (sanitize_agent_id agent) (to_lower-sanitize agent)

-- Keys with one beginning agree, in lower case, exactly if their ends do.
to_lower-prefix :
    (p q s t : Bytes)
    → (to_lower (p ++ (q ++ s)) ≡ to_lower (p ++ (q ++ t))) ↔ (to_lower s ≡ to_lower t)
to_lower-prefix p q s t =
    let open_up =
      λ (u : Bytes). to_lower-append p (q ++ u) ∙ ap (λ v. to_lower p ++ v) (to_lower-append q u) in
    (
      (λ e. append-cancel (to_lower q) (to_lower s) (to_lower t) (
          append-cancel (to_lower p) (to_lower q ++ to_lower s) (to_lower q ++ to_lower t)
            (sym (open_up s) ∙ e ∙ open_up t))),
      (λ e. open_up s ∙ ap (λ v. to_lower p ++ (to_lower q ++ v)) e ∙ sym (open_up t)),
    )

-- With the scope by peer, two peers of one kind have one key exactly if their identifiers agree up
-- to case and blanks at the ends; the channel and the account do not matter.
pub build_per_peer_iff :
    (agent_id c c' a a' : Bytes) (k : PeerKind) (id id' : Bytes)
    → (build agent_id c a (some (record { kind = k; id = id })) per_peer
        ≡ build agent_id c' a' (some (record { kind = k; id = id' })) per_peer)
      ↔ (to_lower (trim id) ≡ to_lower (trim id'))
unfolding build scoped agent_head
build_per_peer_iff agent_id c c' a a' k id id' =
    to_lower-prefix (agent_head (sanitize_agent_id (or_default agent_id default_agent_id)))
      (kind_prefix k) (trim id) (trim id')
